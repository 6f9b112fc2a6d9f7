-- ===== src/Exec/Chosen.antt =====
-- Which configuration file `rvs::exec::run` of rvs/src/rvsexec.cpp takes.
use rocm_validation_suite.Prelude.{
  ◌≡◌, refl, inl, inr, ◌∙◌, ap, sym, Bool, true, false, not, ◌&&◌, is_nil, Option, none, some, List,
  [], ◌∷◌, ◌++◌, Text, codes, Map, find, if◌then◌else◌, arith, Bool-cases, Option-cases,
}
use rocm_validation_suite.Exec.Conf.{
  Site, Checked, accepted, refused, share, module_config_map, is_level, module_confs, prefer,
  check_file, level_file, level_conf, platform_file, try_confs, module_conf, given_conf, and_then,
  find_conf, option_or, choose_conf,
}

-- The first file of a list that can be read.
abbrev pub first_good : Site → List Text → Option Text
first_good site [] = none
first_good site (file ∷ files) = if site.good file then some file else first_good site files

-- The files that an option stands for, in order.
abbrev pub level_files : Site → Text → Text → List Text
level_files site path val =
    (path ++ (share ++ level_file site path val))
    ∷ (path ++ (codes "conf/" ++ level_file site path val))
    ∷ []

abbrev pub module_files : Site → Text → List Text → List Text
module_files site path [] = []
module_files site path (conf ∷ confs) =
    (path ++ (share ++ platform_file site path conf))
    ∷ (path ++ (codes "conf/" ++ platform_file site path conf))
    ∷ (path ++ (codes "conf/" ++ conf))
    ∷ module_files site path confs

abbrev pub default_files : Text → List Text
default_files path = (path ++ (share ++ codes "rvs.conf")) ∷ (path ++ codes "conf/rvs.conf") ∷ []

abbrev pub accepted_file : Checked Text → Option Text
accepted_file (accepted file) = some file
accepted_file (refused msg) = none

abbrev pub is_some : Option Text → Bool
is_some none = false
is_some (some x) = true

and_then_kept :
    (x : Checked Text) → accepted_file (and_then x (λ file. accepted file)) ≡ accepted_file x
unfolding and_then
and_then_kept (accepted file) = refl
and_then_kept (refused msg) = refl

and_then_replaced :
    (x : Checked Text) (k : Text → Checked Text) (o : Option Text)
    → ((file : Text) → accepted_file (k file) ≡ o)
    → accepted_file (and_then (and_then x k) (λ file. accepted file))
      ≡ (if is_some (accepted_file x) then o else none)
unfolding and_then
and_then_replaced (accepted file) k o h = and_then_kept (k file) ∙ h file
and_then_replaced (refused msg) k o h = refl

fine_level :
    (a b : Bool) (o : Option Text)
    → (if a then (if b then none else o) else none)
      ≡ (if (a && (not b && is_some o)) && true then o else none)
fine_level a b none = ground arith
fine_level a b (some file) = ground arith

fine_both :
    (a b known : Bool) (o files : Option Text)
    → (if is_some (if a then (if b then none else o) else none)
        then (if not b && known then files else none)
        else none)
      ≡ (if (a && (not b && is_some o)) && (not b && known) then files else none)
fine_both a b known none files = ground arith
fine_both a b known (some file) files = ground arith

module _ (site : Site) (path : Text) where
  try_confs_lem :
      (confs : List Text) (config_file : Text)
      → accepted_file (try_confs site path confs config_file)
        ≡ first_good site (module_files site path confs)
  unfolding try_confs prefer
  try_confs_lem [] config_file = refl
  try_confs_lem (conf ∷ confs) config_file =
      ground (arith, try_confs_lem confs (path ++ (codes "conf/" ++ conf)))

  prefer_lem :
      (installed old : Text)
      → accepted_file (check_file site path (prefer site path installed old))
        ≡ first_good site ((path ++ installed) ∷ (path ++ old) ∷ [])
  unfolding check_file prefer
  prefer_lem installed old = ground arith

  level_conf_lem :
      (val : Text)
      → accepted_file (level_conf site path val) ≡ (
          if is_level val
          then (if is_nil site.gpu_name then none else first_good site (level_files site path val))
          else none)
  unfolding level_conf
  level_conf_lem val = ground (
    arith,
    prefer_lem (share ++ level_file site path val) (codes "conf/" ++ level_file site path val),
  )

  -- The option -r, if given, names a level of a known platform, one of whose files can be read.
  abbrev pub level_fine : Option Text → Bool
  level_fine none = true
  level_fine (some val) =
      is_level val
      && (not (is_nil site.gpu_name) && is_some (first_good site (level_files site path val)))

  -- The option -m, if given, names a module of the table, on a known platform.
  abbrev pub module_fine : Option Text → Bool
  module_fine none = true
  module_fine (some name) = not (is_nil site.gpu_name) && is_some (find name module_config_map)

  -- The files to try: those of -m, else those of -r, else that of -c, else the default ones.
  abbrev pub conf_files : Option Text → Option Text → Option Text → List Text
  conf_files r (some name) c = elim (find name module_config_map) [
    | none ↦ []
    | some conf ↦ module_files site path (module_confs name conf)
  ]
  conf_files (some val) none c = level_files site path val
  conf_files none none (some val) = val ∷ []
  conf_files none none none = default_files path

  module_conf_lem :
      (name config_file : Text)
      → accepted_file (module_conf site path name config_file) ≡ (
          if module_fine (some name)
          then first_good site (conf_files none (some name) none)
          else none)
  unfolding module_conf
  module_conf_lem name config_file = elim (Option-cases (find name module_config_map)) [
    | inl unknown ↦ ground (arith, unknown)
    | inr (conf, known) ↦ ground (arith, known, try_confs_lem (module_confs name conf) config_file)
  ]

  find_conf_lem :
      (r m c : Option Text)
      → accepted_file (find_conf site path r m c)
        ≡ (if level_fine r && module_fine m then first_good site (conf_files r m c) else none)
  unfolding find_conf and_then given_conf check_file
  find_conf_lem none none none = prefer_lem (share ++ codes "rvs.conf") (codes "conf/rvs.conf")
  find_conf_lem none none (some val) = ground arith
  find_conf_lem (some val) none c =
      and_then_kept (and_then (level_conf site path val) (λ file. accepted file))
      ∙ and_then_kept (level_conf site path val)
      ∙ level_conf_lem val
      ∙ fine_level (is_level val) (is_nil site.gpu_name)
          (first_good site (level_files site path val))
  find_conf_lem none (some name) c =
      and_then_kept (module_conf site path name []) ∙ module_conf_lem name []
  find_conf_lem (some val) (some name) c =
      and_then_replaced (level_conf site path val) (module_conf site path name)
        (if module_fine (some name)
          then first_good site (conf_files none (some name) none)
          else none)
        (module_conf_lem name)
      ∙ ap
          (λ o.
            if is_some o
            then (if module_fine (some name)
                then first_good site (conf_files none (some name) none)
                else none)
            else none)
          (level_conf_lem val)
      ∙ fine_both (is_level val) (is_nil site.gpu_name) (is_some (find name module_config_map))
          (first_good site (level_files site path val))
          (first_good site (conf_files none (some name) none))

-- The configuration file that the options give is the first that can be read, of the files to try
-- for -m, else for -r, else for -c, else of the default ones; the path before them is the option
-- pwd. There is none if no such file can be read, if -r is given and its value is no level, no
-- platform is known or no file of the level can be read, even when -m is given, or if -m is given
-- and its module is not in the table or no platform is known.
pub choose_conf_first :
    (site : Site) (opt : Map Text)
    → let path = option_or (find (codes "pwd") opt) [] in
      let r = find (codes "-r") opt in
      let m = find (codes "-m") opt in
      accepted_file (choose_conf site opt) ≡ (
        if level_fine site path r && module_fine site path m
        then first_good site (conf_files site path r m (find (codes "-c") opt))
        else none)
unfolding choose_conf
choose_conf_first site opt =
    find_conf_lem site (option_or (find (codes "pwd") opt) []) (find (codes "-r") opt)
      (find (codes "-m") opt) (find (codes "-c") opt)

first_good_good :
    (site : Site) (files : List Text) (file : Text)
    → first_good site files ≡ some file
    → site.good file ≡ true
first_good_good site [] file e = absurd (ground (arith, e))
first_good_good site (x ∷ files) file e = elim (Bool-cases (site.good x)) [
  | inl yes_good ↦ ap site.good (ground (arith, e, yes_good)) ∙ yes_good
  | inr not_good ↦ first_good_good site files file (ground (arith, e, not_good))
]

pub good-choose_conf :
    (site : Site) (opt : Map Text) (file : Text)
    → choose_conf site opt ≡ accepted file
    → site.good file ≡ true
good-choose_conf site opt file e =
    let path = option_or (find (codes "pwd") opt) [] in
    let files =
      conf_files site path (find (codes "-r") opt) (find (codes "-m") opt)
        (find (codes "-c") opt) in
    let both =
      level_fine site path (find (codes "-r") opt)
      && module_fine site path (find (codes "-m") opt) in
    let got : (if both then first_good site files else none) ≡ some file =
      sym (choose_conf_first site opt) ∙ ap accepted_file e in
    elim (Bool-cases both) [
      | inl fine ↦ first_good_good site files file (rw fine at got)
      | inr bad ↦ absurd (ground (arith, got, bad))
    ]
