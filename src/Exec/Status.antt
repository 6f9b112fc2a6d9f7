-- ===== src/Exec/Status.antt =====
-- What the statuses of `rvs::exec::run` mean, rvs/src/rvsexec.cpp.
use mathlib.Core.Path.{subst}
use rocm_validation_suite.Prelude.{
  ℕ, zero, suc, ◌≡◌, refl, ◌≤◌, ◌⊎◌, inl, inr, ap, sym, ◌∙◌, [], true, Option, none, some, Text,
  codes, Map, find, if◌then◌else◌, ltb, arith, Bool-cases,
}
use rocm_validation_suite.Exec.Conf.{
  Site, Checked, accepted, refused, and_then, choose_conf, option_or,
}
use rocm_validation_suite.Exec.Chosen.{
  good-choose_conf, choose_conf_first, first_good, conf_files, level_fine, module_fine,
  accepted_file,
}
use rocm_validation_suite.Exec.Run.{
  ℤ, pos, negsuc, Calls, Launch, level_of, duration_of, times_of, is_given, read_d, read_n, read_t,
  read_options,
}

-- What the option -d stands for: errors, 2, where it is missing.
abbrev pub IsLevel : Calls → Option Text → ℕ → Type 0
IsLevel calls o n =
    ((o ≡ none) × (n ≡ 2))
    ⊎ ((val : Text) × (o ≡ some val) × (calls.stoi val ≡ some (pos n)) × (n ≤ 5))

-- What the option -n stands for: one round where it is missing.
abbrev pub IsTimes : Calls → Option Text → ℤ → Type 0
IsTimes calls o n =
    ((o ≡ none) × (n ≡ pos 1)) ⊎ ((val : Text) × (o ≡ some val) × (calls.stoi val ≡ some n))

-- The option -t is missing or a positive number.
abbrev pub IsDuration : Calls → Option Text → Type 0
IsDuration calls o =
    (o ≡ none) ⊎ ((val : Text) × (n : ℕ) × (o ≡ some val) × (calls.stoll val ≡ some (pos (suc n))))

-- The configuration file is the first that can be read of those that -m, -r and -c ask for, and what
-- -m and -r say is known.
abbrev pub IsConfig : Site → Map Text → Text → Type 0
IsConfig site opt file =
    let path = option_or (find (codes "pwd") opt) [] in
    let r = find (codes "-r") opt in
    let m = find (codes "-m") opt in
    (level_fine site path r ≡ true)
    × (module_fine site path m ≡ true)
    × (first_good site (conf_files site path r m (find (codes "-c") opt)) ≡ some file)

-- What the options say of a launch.
pub record IsRunnable (calls : Calls) (opt : Map Text) (launch : Launch) : Type 0 where
  pub given_level : ℕ
  pub valid_level : IsLevel calls (find (codes "-d") opt) given_level
  pub level : launch.log_level ≡ (if is_given (find (codes "-v") opt) then 5 else given_level)
  pub append : launch.append ≡ is_given (find (codes "-a") opt)
  pub log_file : launch.log_file ≡ find (codes "-l") opt
  pub json_log_file : launch.json_log_file ≡ find (codes "-j") opt
  pub config : IsConfig calls.site opt launch.config_file
  pub readable : calls.site.good launch.config_file ≡ true
  pub duration : IsDuration calls (find (codes "-t") opt)
  pub times : IsTimes calls (find (codes "-n") opt) launch.num_times

pub Checked-cases :
    {A : Type 0} (x : Checked A) → ((a : A) × (x ≡ accepted a)) ⊎ ((msg : Text) × (x ≡ refused msg))
Checked-cases (accepted a) = inl (a, refl)
Checked-cases (refused msg) = inr (msg, refl)

and_then_accepted {ℓ κ} :
    {A : Type ℓ} {B : Type κ} (x : Checked A) (f : A → Checked B) (b : B)
    → and_then x f ≡ accepted b
    → (a : A) × (x ≡ accepted a) × (f a ≡ accepted b)
unfolding and_then
and_then_accepted (accepted a) f b e = (a, refl, e)
and_then_accepted (refused msg) f b e = absurd cc

-- What holds of the value, if it was accepted.
abbrev Accepts {ℓ κ} : {A : Type ℓ} → (A → Type κ) → Checked A → Type κ
Accepts P (accepted a) = P a
Accepts P (refused msg) = Unit

Accepts-weaken {ℓ κ κ'} :
    {A : Type ℓ} (P : A → Type κ) (Q : A → Type κ') (x : Checked A)
    → ((a : A) → P a → Q a)
    → Accepts P x
    → Accepts Q x
Accepts-weaken P Q (accepted a) f h = f a h
Accepts-weaken P Q (refused msg) f h = tt

Accepts-accepted {ℓ κ} :
    {A : Type ℓ} (P : A → Type κ) (x : Checked A) (a : A) → Accepts P x → x ≡ accepted a → P a
Accepts-accepted P x a h e = subst (Accepts P) e h

level_of_fine :
    (val : Text) (o : Option ℤ) → Accepts (λ n. (o ≡ some (pos n)) × (n ≤ 5)) (level_of val o)
unfolding level_of
level_of_fine val none = tt
level_of_fine val (some (negsuc n)) = tt
level_of_fine val (some (pos n)) = elim (Bool-cases (ltb 5 n)) [
  | inl more ↦ rw more tt
  | inr fine ↦ rw fine (refl, ground (arith, fine))
]

duration_of_fine :
    (val : Text) (o : Option ℤ)
    → Accepts (λ d. (n : ℕ) × (o ≡ some (pos (suc n)))) (duration_of val o)
unfolding duration_of
duration_of_fine val none = tt
duration_of_fine val (some (negsuc n)) = tt
duration_of_fine val (some (pos zero)) = tt
duration_of_fine val (some (pos (suc n))) = (n, refl)

times_of_fine : (val : Text) (o : Option ℤ) → Accepts (λ n. o ≡ some n) (times_of val o)
unfolding times_of
times_of_fine val none = tt
times_of_fine val (some n) = refl

launch_of : Launch → Checked Launch → Launch
launch_of launch (accepted l) = l
launch_of launch (refused msg) = launch

accepted_same : {l : Launch} (launch : Launch) → accepted l ≡ accepted launch → l ≡ launch
unfolding launch_of
accepted_same launch e = ap (launch_of launch) e

-- A file that was chosen is that of the list.
chosen-IsConfig :
    (site : Site) (opt : Map Text) (file : Text)
    → choose_conf site opt ≡ accepted file
    → IsConfig site opt file
chosen-IsConfig site opt file e =
    let path = option_or (find (codes "pwd") opt) [] in
    let r = find (codes "-r") opt in
    let m = find (codes "-m") opt in
    let l = sym (choose_conf_first site opt) ∙ ap accepted_file e in
    elim (Bool-cases (level_fine site path r)) [
      | inr off ↦ absurd (ground (arith, l, off))
      | inl fine ↦ elim (Bool-cases (module_fine site path m)) [
        | inr off ↦ absurd (ground (arith, l, fine, off))
        | inl known ↦ (fine, known, ground (arith, l, fine, known))
      ]
    ]

module _ (calls : Calls) where
  read_d_fine : (o : Option Text) → Accepts (IsLevel calls o) (read_d calls o)
  unfolding read_d
  read_d_fine none = inl (refl, refl)
  read_d_fine (some val) =
      Accepts-weaken (λ n. (calls.stoi val ≡ some (pos n)) × (n ≤ 5)) (IsLevel calls (some val))
        (level_of val (calls.stoi val)) (λ n e. inr (val, refl, e.0, e.1))
        (level_of_fine val (calls.stoi val))

  read_n_fine : (o : Option Text) → Accepts (IsTimes calls o) (read_n calls o)
  unfolding read_n
  read_n_fine none = inl (refl, refl)
  read_n_fine (some val) =
      Accepts-weaken (λ n. calls.stoi val ≡ some n) (IsTimes calls (some val))
        (times_of val (calls.stoi val)) (λ n e. inr (val, refl, e))
        (times_of_fine val (calls.stoi val))

  read_t_fine : (o : Option Text) → Accepts (λ d. IsDuration calls o) (read_t calls o)
  unfolding read_t and_then
  read_t_fine none = inl refl
  read_t_fine (some val) = elim (Checked-cases (duration_of val (calls.stoll val))) [
    | inl (d, e) ↦
        let (n, long) =
          Accepts-accepted (λ d. (n : ℕ) × (calls.stoll val ≡ some (pos (suc n))))
            (duration_of val (calls.stoll val)) d (duration_of_fine val (calls.stoll val)) e in
        rw e (inr (val, n, refl, long))
    | inr (msg, e) ↦ rw e tt
  ]

  -- If the options from -d to -t are accepted, the launch is what they say: the level of -d, at
  -- most 5, or of -v, the file that is asked for, a positive -t, the number of -n, 1 without it.
  pub read_options-IsRunnable :
      (opt : Map Text) (launch : Launch)
      → read_options calls opt ≡ accepted launch
      → IsRunnable calls opt launch
  unfolding read_options
  read_options-IsRunnable opt launch e =
      let (level, at_d, e1) = and_then_accepted (read_d calls (find (codes "-d") opt)) _ launch e in
      let (config_file, at_c, e2) = and_then_accepted (choose_conf calls.site opt) _ launch e1 in
      let (times, at_n, e3) =
        and_then_accepted (read_n calls (find (codes "-n") opt)) _ launch e2 in
      let (long, at_t, e4) = and_then_accepted (read_t calls (find (codes "-t") opt)) _ launch e3 in
      let same = accepted_same launch e4 in
      record {
        given_level = level;
        valid_level =
            Accepts-accepted (IsLevel calls (find (codes "-d") opt))
              (read_d calls (find (codes "-d") opt)) level (read_d_fine (find (codes "-d") opt))
              at_d;
        level = ap (λ l. l.log_level) (sym same);
        append = ap (λ l. l.append) (sym same);
        log_file = ap (λ l. l.log_file) (sym same);
        json_log_file = ap (λ l. l.json_log_file) (sym same);
        config = rw (sym same) (chosen-IsConfig calls.site opt config_file at_c);
        readable = rw (sym same) (good-choose_conf calls.site opt config_file at_c);
        duration =
            Accepts-accepted (λ d. IsDuration calls (find (codes "-t") opt))
              (read_t calls (find (codes "-t") opt)) long (read_t_fine (find (codes "-t") opt))
              at_t;
        times = rw (sym same) (
            Accepts-accepted (IsTimes calls (find (codes "-n") opt))
              (read_n calls (find (codes "-n") opt)) times (read_n_fine (find (codes "-n") opt))
              at_n);
      }
