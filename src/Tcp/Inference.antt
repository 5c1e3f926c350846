-- ===== src/Tcp/Inference.antt =====
-- tcp_conn_tracker: what `augmentWith` makes of all the packets of a connection.
use postman_insights_agent.Prelude.{
  ℕ, min, max, ◌≡◌, refl, ◌∙◌, Bool, true, false, not, ◌&&◌, ◌||◌, List, [], ◌∷◌, arith, ltb, any,
  if◌then◌else◌, Option, none, some,
}
use postman_insights_agent.Traffic.{
  Bytes, Initiator, unknown_initiator, source_initiator, dest_initiator, EndState,
  connection_closed, connection_reset, TcpPacketMetadata, Traffic,
}
use postman_insights_agent.Tcp.{
  ConnectionInfo, is_unknown, is_open, from_source, observe_end, augment_with,
}

abbrev pub Packet : Type 0
Packet = Traffic × TcpPacketMetadata

module _ (ip_equal : Bytes → Bytes → Bool) where
  -- The packets of one connection, in the order of their arrival.
  pub augment_all : ConnectionInfo → List Packet → ConnectionInfo
  augment_all info [] = info
  augment_all info ((t, m) ∷ ps) = augment_all (augment_with ip_equal info t m) ps

abbrev has_fin : Packet → Bool
has_fin p = p.1.fin

abbrev has_rst : Packet → Bool
has_rst p = p.1.rst

-- The independent description: a reset wins over all else, and a FIN only closes what is open.
abbrev pub end_after : Bool → Bool → EndState → EndState
end_after rst fin e =
    if rst then connection_reset else (if fin && is_open e then connection_closed else e)

observe_end-after :
    (e : EndState) (m : TcpPacketMetadata) → observe_end e m ≡ end_after m.rst m.fin e
unfolding observe_end
observe_end-after e m = ground arith

end_after_twice :
    (r r' f f' : Bool) (e : EndState)
    → end_after r' f' (end_after r f e) ≡ end_after (r || r') (f || f') e
end_after_twice r r' f f' e = ground arith

-- Of the packets that augmentWith is given, which are those of a connection after the one that
-- opened it, the end state depends only on whether some had RST and on whether some had FIN, and
-- on the end state before them: RST wins in whatever order they come, and FIN closes what is open.
pub augment_all-end_state :
    (ip_equal : Bytes → Bytes → Bool) (info : ConnectionInfo) (ps : List Packet)
    → (augment_all ip_equal info ps).tcp_metadata.end_state
      ≡ end_after (any has_rst ps) (any has_fin ps) info.tcp_metadata.end_state
unfolding augment_all augment_with
augment_all-end_state q info [] = refl
augment_all-end_state q info ((t, m) ∷ ps) =
    augment_all-end_state q (augment_with q info t m) ps
    ∙ (rw (observe_end-after info.tcp_metadata.end_state m)
        (end_after_twice m.rst (any has_rst ps) m.fin (any has_fin ps) info.tcp_metadata.end_state))

abbrev pub first_seen : ℕ → List Packet → ℕ
first_seen t [] = t
first_seen t (p ∷ ps) = min p.0.observation_time (first_seen t ps)

abbrev pub last_seen : ℕ → List Packet → ℕ
last_seen t [] = t
last_seen t (p ∷ ps) = max p.0.observation_time (last_seen t ps)

first_seen-step :
    (a t : ℕ) (ps : List Packet)
    → first_seen (if ltb a t then a else t) ps ≡ min a (first_seen t ps)
first_seen-step a t [] = ground arith
first_seen-step a t (p ∷ ps) = omega (arith, first_seen-step a t ps)

last_seen-step :
    (a t : ℕ) (ps : List Packet) → last_seen (if ltb t a then a else t) ps ≡ max a (last_seen t ps)
last_seen-step a t [] = ground arith
last_seen-step a t (p ∷ ps) = omega (arith, last_seen-step a t ps)

-- The first and the last observation are the least and the greatest time seen.
pub augment_all-times :
    (ip_equal : Bytes → Bytes → Bool) (info : ConnectionInfo) (ps : List Packet)
    → let after = augment_all ip_equal info ps in
      (after.first_observation_time ≡ first_seen info.first_observation_time ps)
      × (after.last_observation_time ≡ last_seen info.last_observation_time ps)
unfolding augment_all augment_with
augment_all-times q info [] = (refl, refl)
augment_all-times q info ((t, m) ∷ ps) =
    let ih = augment_all-times q (augment_with q info t m) ps in
    (
      ih.0 ∙ first_seen-step t.observation_time info.first_observation_time ps,
      ih.1 ∙ last_seen-step t.observation_time info.last_observation_time ps,
    )

-- The packet that decides who opened the connection: the first with SYN.
abbrev pub first_syn : List Packet → Option Packet
first_syn [] = none
first_syn (p ∷ ps) = if p.1.syn then some p else first_syn ps

abbrev opposite : Initiator → Initiator
opposite source_initiator = dest_initiator
opposite dest_initiator = source_initiator
opposite unknown_initiator = unknown_initiator

-- A SYN is sent by the initiator, a SYN with ACK is sent to it.
abbrev pub initiator_by : Bool → Bool → Initiator
initiator_by sent_by_source ack =
    let sender = if sent_by_source then source_initiator else dest_initiator in
    if ack then opposite sender else sender

abbrev pub decided : (Bytes → Bytes → Bool) → ConnectionInfo → Option Packet → Initiator
decided q info none = info.tcp_metadata.initiator
decided q info (some (t, m)) = initiator_by (from_source q info t) m.ack

-- Of the packets that augmentWith is given, which are those of a connection after the one that
-- opened it: while the initiator is not known, the first with SYN decides it, by its sender and
-- its ACK, and nothing later changes it; with no such packet it stays unknown. A known initiator
-- is kept.
pub augment_all-initiator :
    (ip_equal : Bytes → Bytes → Bool) (info : ConnectionInfo) (ps : List Packet)
    → (augment_all ip_equal info ps).tcp_metadata.initiator ≡ (
        if is_unknown info.tcp_metadata.initiator
        then decided ip_equal info (first_syn ps)
        else info.tcp_metadata.initiator)
unfolding augment_all augment_with from_source
augment_all-initiator q info [] = ground arith
augment_all-initiator q info ((t, m) ∷ ps) =
    ground (arith, augment_all-initiator q (augment_with q info t m) ps)

-- Of two packets of a connection sent in opposite directions, one with SYN and one with SYN and
-- ACK, it does not matter which is seen first: they name the same initiator.
pub augment-syn_synack_agree :
    (ip_equal : Bytes → Bytes → Bool) (info : ConnectionInfo) (t u : Traffic)
    (syn syn_ack : TcpPacketMetadata)
    → info.tcp_metadata.initiator ≡ unknown_initiator
    → syn.syn ≡ true
    → syn.ack ≡ false
    → syn_ack.syn ≡ true
    → syn_ack.ack ≡ true
    → from_source ip_equal info u ≡ not (from_source ip_equal info t)
    → (augment_with ip_equal info t syn).tcp_metadata.initiator
      ≡ (augment_with ip_equal info u syn_ack).tcp_metadata.initiator
unfolding augment_with
augment-syn_synack_agree q info t u m n k s a s' a' o = ground arith
