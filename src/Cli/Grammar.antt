-- ===== src/Cli/Grammar.antt =====
-- `rvs::cli::optbase` and `init_grammar` of rvs/src/rvscli.cpp.
use rocm_validation_suite.Prelude.{List, [], ◌∷◌, Text, codes, Map, insert}

pub data EContext : Type 0 where
  eof value optionalvalue command : EContext

-- The top of a stack is the head of its list.
pub record OptBase : Type 0 where
  pub name : Text
  pub new_context : List EContext

push_unless_eof : EContext → List EContext → List EContext
push_unless_eof eof stack = stack
push_unless_eof s stack = s ∷ stack

unfoldable pub optbase : Text → EContext → EContext → EContext → OptBase
unfolding push_unless_eof
optbase ptruename s1 s2 s3 = record {
  name = ptruename;
  new_context = push_unless_eof s3 (push_unless_eof s2 (s1 ∷ eof ∷ []));
}

-- The two `grammar.insert` calls that share one `optbase`.
both : Text → Text → OptBase → Map OptBase → Map OptBase
both short long sp g = insert long sp (insert short sp g)

flag : Text → OptBase
flag name = optbase name command eof eof

with_value : Text → OptBase
with_value name = optbase name command value eof

with_optional : Text → OptBase
with_optional name = optbase name command optionalvalue eof

unfoldable pub init_grammar : Map OptBase → Map OptBase
unfolding both flag with_value with_optional
init_grammar start =
    let g = both (codes "-a") (codes "--appendLog") (flag (codes "-a")) start in
    let g = both (codes "-c") (codes "--config") (with_value (codes "-c")) g in
    let g = both (codes "-d") (codes "--debugLevel") (with_value (codes "-d")) g in
    let g = both (codes "-g") (codes "--listGpus") (flag (codes "-g")) g in
    let g = both (codes "-i") (codes "--indexes") (with_value (codes "-i")) g in
    let g = both (codes "-s") (codes "--selectActions") (with_value (codes "-s")) g in
    let g = both (codes "-j") (codes "--json") (with_optional (codes "-j")) g in
    let g = both (codes "-l") (codes "--debugLogFile") (with_value (codes "-l")) g in
    let g = both (codes "-q") (codes "--quiet") (flag (codes "-q")) g in
    let g = both (codes "-n") (codes "--numTimes") (with_value (codes "-n")) g in
    let g = both (codes "-p") (codes "--parallel") (with_optional (codes "-p")) g in
    let g = both (codes "-m") (codes "--module") (with_value (codes "-m")) g in
    let g = both (codes "-r") (codes "--run") (with_value (codes "-r")) g in
    let g = both (codes "-t") (codes "--duration") (with_value (codes "-t")) g in
    let g = insert (codes "--listTests") (flag (codes "--listTests")) g in
    let g = both (codes "-v") (codes "--verbose") (flag (codes "-v")) g in
    let g = insert (codes "--version") (flag (codes "-ver")) g in
    both (codes "-h") (codes "--help") (flag (codes "-h")) g

-- `init_grammar` clears the map first.
unfoldable pub grammar : Map OptBase
unfolding init_grammar optbase insert
grammar = init_grammar []
