-- ===== src/Module/Loaded.antt =====
-- What holds of the loaded modules, rvs/src/rvsmodule.cpp.
use rocm_validation_suite.Prelude.{
  ℕ, ◌≡◌, refl, ap, ◌∙◌, sym, false, none, some, List, [], ◌∷◌, ◌++◌, Text, Map, find, insert,
  str_eq, All, All-append, arith, str_eq_iff, str_eq_refl,
}
use rocm_validation_suite.Module.Load.{Module, Host, Modules, find_create_module}
use rocm_validation_suite.Module.Outcome.{
  IsStarted, Added, Unchanged, known, failed, loaded, outcome, insert-absent,
}

-- The handles of the modules in the map, the last one first.
abbrev pub handles : Map Module → List ℕ → List ℕ
handles [] acc = acc
handles ((k, m) ∷ rest) acc = handles rest (m.psolib ∷ acc)

abbrev pub Distinct : Map Module → Type 0
Distinct [] = Unit
Distinct ((k, m) ∷ rest) = (find k rest ≡ none) × Distinct rest

-- Every entry of the map is a started module of that name, the names are distinct, and the open
-- libraries are those of the modules in the map, beside some that were left open.
pub record IsLoaded (host : Host) (left : List ℕ) (st : Modules) : Type 0 where
  pub started : All (λ e. IsStarted host e.0 e.1) st.modulemap
  pub once : Distinct st.modulemap
  pub opened : st.live ≡ handles st.modulemap left

handles-append :
    (m : Map Module) (k : Text) (v : Module) (acc : List ℕ)
    → handles (m ++ (k, v) ∷ []) acc ≡ v.psolib ∷ handles m acc
handles-append [] k v acc = refl
handles-append ((j, w) ∷ m) k v acc = handles-append m k v (w.psolib ∷ acc)

find-append_none :
    (j k : Text) (v : Module) (m : Map Module)
    → find j m ≡ none
    → str_eq k j ≡ false
    → find j (m ++ (k, v) ∷ []) ≡ none
unfolding find
find-append_none j k v [] e d = ground arith
find-append_none j k v ((i, w) ∷ m) e d = ground (arith, find-append_none j k v m)

Distinct-append :
    (m : Map Module) (k : Text) (v : Module)
    → Distinct m
    → find k m ≡ none
    → Distinct (m ++ (k, v) ∷ [])
unfolding find
Distinct-append [] k v d e = (refl, tt)
Distinct-append ((j, w) ∷ m) k v d e = (
  find-append_none j k v m d.0 (ground (arith, str_eq_iff j k, str_eq_iff k j)),
  Distinct-append m k v d.1 (ground arith),
)

pub find-insert_self :
    (k : Text) (v : Module) (m : Map Module) → find k m ≡ none → find k (insert k v m) ≡ some v
unfolding find insert
find-insert_self k v [] e = ground (arith, str_eq_refl k)
find-insert_self k v ((j, w) ∷ m) e = ground (arith, find-insert_self k v m)

module _ (host : Host) (left : List ℕ) (st : Modules) (h : IsLoaded host left st) where
  pub Unchanged-IsLoaded : (st' : Modules) → Unchanged st st' → IsLoaded host left st'
  Unchanged-IsLoaded st' u = record {
    started = rw u.same_modules h.started;
    once = rw u.same_modules h.once;
    opened = u.same_live ∙ h.opened ∙ ap (λ m. handles m left) (sym u.same_modules);
  }

  Added-IsLoaded :
      (st' : Modules) (name : Text) (m : Module)
      → find name st.modulemap ≡ none
      → IsStarted host name m
      → Added st st' name m
      → IsLoaded host left st'
  Added-IsLoaded st' name m absent s a =
      let there : st'.modulemap ≡ st.modulemap ++ (name, m) ∷ [] =
        a.entered ∙ insert-absent name m st.modulemap absent in
      record {
        started = rw there (
            All-append (λ e. IsStarted host e.0 e.1) st.modulemap ((name, m) ∷ []) h.started
              (s, tt));
        once = rw there (Distinct-append st.modulemap name m h.once absent);
        opened =
            a.opened
            ∙ ap (λ l. m.psolib ∷ l) h.opened
            ∙ sym (handles-append st.modulemap name m left)
            ∙ ap (λ x. handles x left) (sym there);
      }

  pub find_create-IsLoaded : (name : Text) → IsLoaded host left (find_create_module host name st).0
  find_create-IsLoaded name = elim (outcome host name st) [
    | known found same ↦ rw (ap (λ r. r.0) same) h
    | failed no_module u absent ↦ Unchanged-IsLoaded (find_create_module host name st).0 u
    | loaded {m} {file} got absent listed opened s a ↦
        Added-IsLoaded (find_create_module host name st).0 name m absent s a
  ]
