-- ===== src/Cli/Examples.antt =====
-- Command lines, run and read.
use rocm_validation_suite.Prelude.{
  ◌≡◌, refl, none, some, List, [], ◌∷◌, Text, codes, Map, find, put, str_eq,
}
use rocm_validation_suite.Cli.Grammar.{command, eof, grammar}
use rocm_validation_suite.Cli.Loop.{Cli, Status, success, failure, extract_path, parse}
use rocm_validation_suite.Cli.Reads.{Reads}
use rocm_validation_suite.Cli.Correct.{parse_total, parse_sound, parse_complete}
use rocm_validation_suite.Cli.Errors.{Rejected, parse_failure}

abbrev line : List Text
line = codes "-j" ∷ codes "-c" ∷ codes "gst.conf" ∷ codes "-q" ∷ []

abbrev meant : Map Text
meant = (codes "-j", []) ∷ (codes "-c", codes "gst.conf") ∷ (codes "-q", []) ∷ []

abbrev final : Cli
final = record {
  rest = [];
  errstr = [];
  current_option = [];
  current_value = [];
  context = [];
  opt = meant;
}

line_runs : parse none line [] ≡ some (some (success, final))
unfolding parse grammar find put str_eq
line_runs = refl

parse_total_example : (status : Status) × (c : Cli) × (parse none line [] ≡ some (some (status, c)))
parse_total_example = parse_total none line []

parse_sound_example : Reads line (extract_path none []) meant
parse_sound_example = parse_sound none line [] line_runs

parse_complete_example :
    (c : Cli) × (parse none line [] ≡ some (some (success, c))) × (c.opt ≡ meant)
parse_complete_example = parse_complete none line [] (parse_sound none line [] line_runs)

abbrev refused : Cli
refused = record {
  rest = [];
  errstr = codes "syntax error: value expected after -c";
  current_option = codes "-c";
  current_value = [];
  context = command ∷ eof ∷ [];
  opt = [];
}

refused_runs : parse none (codes "-c" ∷ []) [] ≡ some (some (failure, refused))
unfolding parse grammar find str_eq
refused_runs = refl

parse_failure_example : Rejected (codes "-c" ∷ []) refused.errstr
parse_failure_example = parse_failure none (codes "-c" ∷ []) [] refused_runs
