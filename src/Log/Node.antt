-- ===== src/Log/Node.antt =====
-- The nodes of a log record and `ToJson`: src/rvslognode.cpp, rvslognodebase.cpp, rvslognodeint.cpp,
-- rvslognodestring.cpp, rvslognoderec.cpp, rvslognodelist.cpp and rvsminnode.cpp. A subclass is a
-- constructor. A node's parent, which is never read, is left out; the value of `LogNodeInt` is an
-- `int`, its sign apart.
pub mod Nested
use rocm_validation_suite.Prelude.{
  ℕ, zero, suc, ◌-◌, Bool, true, false, List, [], ◌∷◌, ◌++◌, Text, codes, length, if◌then◌else◌,
}
use rocm_validation_suite.Util.Number.{to_string}

mutual
  pub data Node : Type 0 where
    log_node : Text → Nodes → Node
    log_node_int : Text → Bool → ℕ → Node
    log_node_string : Text → Text → Node
    log_node_rec : Text → ℕ → ℕ → ℕ → Nodes → Node
    log_list_node : Text → ℕ → Nodes → Node
    min_node : Text → ℕ → Bool → Nodes → Node

  pub data Nodes : Type 0 where
    nil : Nodes
    cons : Node → Nodes → Nodes

-- `LogLevel()`; the two leaf classes have none, and are never records.
unfoldable pub log_level : Node → ℕ
log_level (log_node_rec name level sec usec child) = level
log_level (log_list_node name level child) = level
log_level (min_node name level named child) = level
log_level _ = 0

push_back : Nodes → Node → Nodes
push_back nil p = cons p nil
push_back (cons n ns) p = cons n (push_back ns p)

-- `Add`, for the classes that have children.
unfoldable pub add : Node → Node → Node
unfolding push_back
add (log_node name child) p = log_node name (push_back child p)
add (log_node_rec name level sec usec child) p =
    log_node_rec name level sec usec (push_back child p)
add (log_list_node name level child) p = log_list_node name level (push_back child p)
add (min_node name level named child) p = min_node name level named (push_back child p)
add leaf p = leaf

blanks : ℕ → Text
blanks zero = []
blanks (suc n) = b' ' ∷ blanks n

unfoldable pub quoted : Text → Text
quoted s = codes "\"" ++ (s ++ codes "\"")

-- `snprintf("%6d.%-6d", sec, usec)`, for numbers that an `int` holds.
unfoldable pub time_text : ℕ → ℕ → Text
unfolding blanks
time_text sec usec =
    (blanks (6 - length (to_string sec)) ++ to_string sec)
    ++ (codes "." ++ (to_string usec ++ blanks (6 - length (to_string usec))))

signed : Bool → ℕ → Text
signed negative n = if negative then codes "-" ++ to_string n else to_string n

abbrev pub rvsendl : Text
rvsendl = codes "\n"

abbrev pub rvsindent : Text
rvsindent = codes "  "

separator : Nodes → Text
separator nil = []
separator (cons n ns) = codes ","

level_field : Text → ℕ → Text
unfolding quoted
level_field lead level =
    rvsendl
    ++ ((lead ++ rvsindent)
        ++ (quoted (codes "loglevel") ++ (codes " : " ++ (to_string level ++ codes ","))))

time_field : Text → ℕ → ℕ → Text
unfolding quoted
time_field lead sec usec =
    rvsendl
    ++ ((lead ++ rvsindent)
        ++ (quoted (codes "time") ++ (codes " : " ++ (quoted (time_text sec usec) ++ codes ","))))

-- `ToJson` of each class, with the text of its children.
log_node_text : Text → Text → Text → Text
unfolding quoted
log_node_text lead name body =
    rvsendl
    ++ (lead ++ (quoted name ++ (codes " : {" ++ (body ++ (rvsendl ++ (lead ++ codes "}"))))))

int_text : Text → Text → Bool → ℕ → Text
unfolding quoted signed
int_text lead name negative n =
    rvsendl ++ (lead ++ (quoted name ++ (codes " : " ++ signed negative n)))

string_text : Text → Text → Text → Text
unfolding quoted
string_text lead name val = rvsendl ++ (lead ++ (quoted name ++ (codes " : " ++ quoted val)))

rec_text : Text → ℕ → ℕ → ℕ → Text → Text
unfolding level_field time_field
rec_text lead level sec usec body =
    rvsendl
    ++ (lead
        ++ (codes "{"
            ++ (level_field lead level
                ++ (time_field lead sec usec ++ (body ++ (rvsendl ++ (lead ++ codes "}")))))))

list_text : Text → Text → Text → Text
unfolding quoted
list_text lead name body =
    rvsendl
    ++ (codes "{"
        ++ (lead
            ++ (quoted name
                ++ (codes " : [" ++ (body ++ (rvsendl ++ (lead ++ (codes "]" ++ codes "}"))))))))

min_text : Text → Text → Bool → Text → Text
unfolding quoted
min_text lead name true body =
    rvsendl
    ++ (codes "{"
        ++ (lead
            ++ (quoted name
                ++ (codes " : {"
                    ++ (body
                        ++ (rvsendl
                            ++ (lead ++ (codes "}" ++ (rvsendl ++ (lead ++ codes "}"))))))))))
min_text lead name false body = rvsendl ++ (codes "{" ++ (body ++ (rvsendl ++ (lead ++ codes "}"))))

unfoldable mutual
  unfolding log_node_text int_text string_text rec_text list_text min_text separator

  pub to_json : Text → Node → Text
  to_json lead (log_node name child) = log_node_text lead name (children (lead ++ rvsindent) child)
  to_json lead (log_node_int name negative n) = int_text lead name negative n
  to_json lead (log_node_string name val) = string_text lead name val
  to_json lead (log_node_rec name level sec usec child) =
      rec_text lead level sec usec (children (lead ++ rvsindent) child)
  to_json lead (log_list_node name level child) =
      list_text lead name (children (lead ++ rvsindent) child)
  to_json lead (min_node name level named child) =
      min_text lead name named (children (lead ++ rvsindent) child)

  -- The loop over `Child`, with a comma after each node but the last.
  pub children : Text → Nodes → Text
  children lead nil = []
  children lead (cons n ns) = to_json lead n ++ (separator ns ++ children lead ns)
