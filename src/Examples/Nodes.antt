-- ===== src/Examples/Nodes.antt =====
-- Two nodes: one comes up, and the required other fails to fetch a file behind its connection.
use tunstrap.Common.{String, ◌≡◌, refl, true, false, ◌||◌, false, any, none, List, [], ◌∷◌, ok}
use tunstrap.Manager.Start.{NodeInput, Start, start_one}
use tunstrap.Manager.Build.{Entry, start_all, start_all_and_build_output}
use tunstrap.Manager.Nodes.{IsSettled, start_one-IsSettled}
use tunstrap.Manager.Outcome.{closes, holds, is_error, is_raised, is_lost, start_all_accounts}
use tunstrap.Manager.Reporting.{Describes, start_all_reports}

abbrev shown : List String → String
shown names = "['ca']"

abbrev starts : Start
starts = record {
  connect = ok 1;
  forwards = ok (("db", 40001) ∷ [], 7 ∷ []);
  files = ok ([], []);
  targets = ok ([], [], []);
  write_files = none;
  write_targets = none;
}

abbrev lacks_file : Start
lacks_file = record starts {
  connect = ok 2;
  forwards = ok ([], 8 ∷ []);
  files = ok ([], "ca" ∷ []);
}

abbrev with_files : NodeInput
with_files = record { required = true; has_files = true; has_targets = false; has_session = true }

abbrev entries : List Entry
entries =
    record { name = "edge"; node = with_files; start = starts }
    ∷ record { name = "db"; node = with_files; start = lacks_file }
    ∷ []

start_one-IsSettled_example :
    IsSettled 2 (8 ∷ []) with_files lacks_file (start_one shown "db" with_files lacks_file)
start_one-IsSettled_example = start_one-IsSettled shown "db" with_files lacks_file 2 refl

start_all_accounts_example :
    (is_raised (start_all_and_build_output shown entries).report ≡ false
      → (closes 1 (start_all_and_build_output shown entries).closings
          || holds 1 (start_all_and_build_output shown entries).live)
        ≡ true)
    × (is_error (start_all_and_build_output shown entries).report ≡ true
        → (start_all_and_build_output shown entries).live ≡ [])
    × (is_raised (start_all_and_build_output shown entries).report ≡ any (is_lost shown) entries)
start_all_accounts_example = start_all_accounts shown entries 1 refl

start_all_reports_example :
    Describes (start_all shown entries) (start_all_and_build_output shown entries).report
start_all_reports_example = start_all_reports shown entries
