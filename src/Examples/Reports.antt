-- ===== src/Examples/Reports.antt =====
-- A sanitizer report behind a header that the target printed.
use deep_thought.Prelude.{String, ◌≡◌, refl, false, none, some, [], ◌∷◌}
use deep_thought.Prelude.Text.{join}
use deep_thought.Sandbox.{CrashReport}
use deep_thought.Sandbox.Asan.{parse_asan}
use deep_thought.Sandbox.Asan.Headers.{report_from_header}
use deep_thought.Sandbox.Asan.Sliced.{parse_asan-report_from_header}

abbrev output : String
output =
    "ERROR: AddressSanitizer: fake\nREAD of size 9\nERROR:  AddressSanitizer: heap-use-after-free\nWRITE of size 16 at\n#0 0xA1 in f (lib.so)\n#1 0x1f in parse a:b.c:12:5 x\n#2 0x2 in main (m.c:3\n#3 0x3 in main m.c:34)"

abbrev crash : CrashReport
crash = record {
  sanitizer = "AddressSanitizer";
  error_type = "heap-use-after-free";
  access = "WRITE";
  access_size = some 16;
  faulting_function = "parse";
  faulting_location = "a:b.c:12:5";
  top_frames = "parse a:b.c:12:5" ∷ "main m.c:34" ∷ [];
  dedup_key = "parse a:b.c:12:5";
  raw_ref = none;
}

last_report : parse_asan (λ s. s) (λ c. false) (λ c. none) output ≡ some crash
unfolding parse_asan join
last_report = refl

header_alone :
    parse_asan (λ s. s) (λ c. false) (λ c. none) "ERROR: AddressSanitizer: SEGV READ of sizes 4"
    ≡ none
unfolding parse_asan
header_alone = refl

parse_asan-report_from_header_example :
    parse_asan (λ s. s) (λ c. false) (λ c. none) (report_from_header output)
    ≡ parse_asan (λ s. s) (λ c. false) (λ c. none) output
parse_asan-report_from_header_example =
    parse_asan-report_from_header (λ s. s) (λ c. false) (λ c. none) output
