-- ===== src/Summary/Warnings.antt =====
-- apidump/summary.go: PrintWarnings and IsEmpty.
use postman_insights_agent.Prelude.{◌≡◌, Bool, true, false, arith, any}
use postman_insights_agent.Summary.{Summary, Warning, no_http_calls, print_warnings, is_empty}

abbrev pub says_no_calls : Warning → Bool
says_no_calls no_http_calls = true
says_no_calls _ = false

-- No HTTP calls captured is said exactly of a summary that is empty.
pub print_warnings-is_empty :
    (problems in_docker : Bool) (s : Summary)
    → any says_no_calls (print_warnings problems in_docker s) ≡ is_empty s
unfolding print_warnings is_empty
print_warnings-is_empty problems in_docker s = ground arith
