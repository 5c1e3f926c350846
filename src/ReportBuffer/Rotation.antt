-- ===== src/ReportBuffer/Rotation.antt =====
-- trace/report_buffer.go: the rotation of the upload requests.
use postman_insights_agent.Prelude.{
  ℕ, subst, zero, suc, ◌+◌, ◌≡◌, refl, Bool, false, Option, none, some, List, [], ◌∷◌, arith,
  if◌then◌else◌, length, sum_by, All, if_cases, option_cases, Option-cases, inl, inr,
}
use postman_insights_agent.ReportBuffer.{
  ReportBuffer, UploadRequest, flush, receive, take_out, upload_ends, upload_back, is_empty,
}

take_out-sum :
    (f : UploadRequest → ℕ) (n : ℕ) (rs : List UploadRequest) {r : UploadRequest}
    {rest : List UploadRequest}
    → take_out n rs ≡ some (r, rest)
    → sum_by f rs ≡ f r + sum_by f rest
unfolding take_out
take_out-sum f n [] e = absurd (cc)
take_out-sum f zero (x ∷ xs) e = ground arith
take_out-sum f (suc n) (x ∷ xs) e = elim (Option-cases (take_out n xs)) [
  | inl e' ↦ absurd (ground (arith, e, e'))
  | inr ((r', rest'), e') ↦ ground (arith, e, e', take_out-sum f n xs e')
]

abbrev pub AllTaken :
    (UploadRequest → Type 0) → Option (UploadRequest × List UploadRequest) → Type 0
AllTaken P none = Unit
AllTaken P (some (r, rest)) = P r × All P rest

pub take_out-All :
    (P : UploadRequest → Type 0) (n : ℕ) (rs : List UploadRequest)
    → All P rs
    → AllTaken P (take_out n rs)
unfolding take_out
take_out-All P n [] h = tt
take_out-All P zero (x ∷ xs) h = h
take_out-All P (suc n) (x ∷ xs) h =
    option_cases (AllTaken P) (take_out n xs) (λ _. tt)
      λ found e.
        (let ih : AllTaken P (some found) = subst (AllTaken P) e (take_out-All P n xs h.1) in
          (ih.0, (h.0, ih.1)))

abbrev one_unless : Bool → ℕ
one_unless b = if b then 0 else 1

-- How many requests there are.
abbrev pub requests : ReportBuffer → ℕ
requests buf = buf.free + sum_by (λ _. 1) buf.uploading + one_unless buf.waiting

abbrev witness_count : UploadRequest → ℕ
witness_count r = length r.witnesses

abbrev active_count : ReportBuffer → ℕ
active_count buf = if buf.waiting then 0 else witness_count buf.active_upload_report

-- How many reports of witnesses are in the buffer, on their way, or done with.
abbrev pub witnesses : ReportBuffer → ℕ
witnesses buf =
    active_count buf
    + sum_by witness_count buf.uploading
    + sum_by (λ f. witness_count f.0) buf.finished

abbrev Counted : ℕ → ℕ → ReportBuffer → Type 0
Counted w r buf = (witnesses buf ≡ w) × (requests buf ≡ r)

receive-Counted :
    (buf : ReportBuffer)
    → Counted
        (sum_by witness_count buf.uploading + sum_by (λ f. witness_count f.0) buf.finished)
        (buf.free + sum_by (λ _. 1) buf.uploading)
        (receive buf)
unfolding receive
receive-Counted buf = (ground arith, ground arith)

-- If no flush is waiting, a flush neither loses nor repeats a report of a witness, nor a request.
pub flush-keeps :
    (buf : ReportBuffer)
    → buf.waiting ≡ false
    → (witnesses (flush buf) ≡ witnesses buf) × (requests (flush buf) ≡ requests buf)
unfolding flush
flush-keeps buf e =
    if_cases (Counted (witnesses buf) (requests buf)) (is_empty buf.active_upload_report)
      (λ _. (refl, refl))
      λ _.
        (let (w, r) =
            receive-Counted (record buf { uploading = buf.active_upload_report ∷ buf.uploading }) in
          (ground (arith, w, e), ground (arith, r, e)))

-- The end of an upload neither loses nor repeats a report of a witness, nor a request.
pub upload_ends-keeps :
    (buf : ReportBuffer) (n : ℕ) (ok : Bool)
    → (witnesses (upload_ends buf n ok) ≡ witnesses buf)
      × (requests (upload_ends buf n ok) ≡ requests buf)
unfolding upload_ends upload_back
upload_ends-keeps buf n ok =
    option_cases (Counted (witnesses buf) (requests buf)) (take_out n buf.uploading)
      (λ _. (refl, refl))
      λ (report, rest) e.
        (let back = upload_back buf report rest ok in
          let w = take_out-sum witness_count n buf.uploading e in
          let r = take_out-sum (λ _. 1) n buf.uploading e in
          let (w', r') = receive-Counted back in
          if_cases (Counted (witnesses buf) (requests buf)) buf.waiting
            (λ wait. (ground (arith, w, w', wait), ground (arith, r, r', wait)))
            λ on. (ground (arith, w, on), ground (arith, r, on)))
