-- ===== src/TcpFlow/Cases.antt =====
-- pcap/stream.go: what parsers, the selector and the contexts may give, told apart in proofs.
use postman_insights_agent.Prelude.{ℕ, ◌≡◌, refl}
use postman_insights_agent.Traffic.{Bytes}
use postman_insights_agent.TcpFlow.{
  Decision, need_more_data, reject, unsupported, accept, SgContext, nil_context, other_context,
  with_seq, Outcome, parse_error, parsed, unfinished, Context,
}

pub outcome_cases {ℓ κ} :
    {Q C : Type 0} {B : Type ℓ} (P : B → Type κ) (o : Outcome Q C) {e : ℕ → B} {r : C → Bytes → B}
    {w : Q → B}
    → ((n : ℕ) → o ≡ parse_error n → P (e n))
    → ((c : C) (u : Bytes) → o ≡ parsed c u → P (r c u))
    → ((q : Q) → o ≡ unfinished q → P (w q))
    → P (elim o [ parse_error n ↦ e n | parsed c u ↦ r c u | unfinished q ↦ w q ])
outcome_cases P (parse_error n) e r w = e n refl
outcome_cases P (parsed c u) e r w = r c u refl
outcome_cases P (unfinished q) e r w = w q refl

pub decision_cases {ℓ κ} :
    {F : Type 0} {B : Type ℓ} (P : B → Type κ) (o : Decision F) {n r u : B} {a : F → B}
    → P n
    → P r
    → P u
    → ((f : F) → P (a f))
    → P (elim o [ need_more_data ↦ n | reject ↦ r | unsupported ↦ u | accept f ↦ a f ])
decision_cases P need_more_data n r u a = n
decision_cases P reject n r u a = r
decision_cases P unsupported n r u a = u
decision_cases P (accept f) n r u a = a f

pub context_cases {ℓ κ} :
    {B : Type ℓ} (P : B → Type κ) (o : SgContext) {w : Context → B} {n r : B}
    → ((ctx : Context) → P (w ctx))
    → P n
    → P r
    → P (elim o [ with_seq ctx ↦ w ctx | nil_context ↦ n | other_context ↦ r ])
context_cases P (with_seq ctx) w n r = w ctx
context_cases P nil_context w n r = n
context_cases P other_context w n r = r
