-- ===== src/Module/Ready.antt =====
-- When `init_interfaces` of rvs/src/rvsmodule.cpp succeeds.
use rocm_validation_suite.Prelude.{
  ℕ, ◌+◌, ◌≡◌, refl, ◌∙◌, true, List, [], ◌∷◌, ◌++◌, Text, All, codes, ap, arith, Bool-cases, inl,
  inr,
}
use rocm_validation_suite.Module.Interfaces.{
  Library, Built, init_interface_method, methods, init_interface, init_interface_0,
  init_interface_1, init_interfaces, symbols_0, symbols_1, base_symbols, with_0, with_1,
}

abbrev pub Has : Library → ℕ → List Text → Type 0
Has lib h = All (λ s. lib.has_symbol h s ≡ true)

-- The library has every symbol and both interfaces.
pub record IsReady (lib : Library) (h : ℕ) : Type 0 where
  pub base : Has lib h base_symbols
  pub if0 : Has lib h symbols_0
  pub if1 : Has lib h symbols_1
  pub has_0 : lib.has_interface h 0 ≡ true
  pub has_1 : lib.has_interface h 1 ≡ true

module _ (lib : Library) (h : ℕ) where
  ifmap-init_interface_method :
      (s : Text) (b : Built) → (init_interface_method lib h s b).0.ifmap ≡ b.ifmap
  unfolding init_interface_method
  ifmap-init_interface_method s b = ground arith

  init_interface_method_zero :
      (s : Text) (b : Built) → (init_interface_method lib h s b).1 ≡ 0 → lib.has_symbol h s ≡ true
  unfolding init_interface_method
  init_interface_method_zero s b = ground arith

  ifmap-methods :
      (names : List Text) (b : Built) (k : ℕ) → (methods lib h names (b, k)).0.ifmap ≡ b.ifmap
  unfolding methods
  ifmap-methods [] b k = refl
  ifmap-methods (s ∷ names) b k =
      ifmap-methods names (init_interface_method lib h s b).0
        (k + (init_interface_method lib h s b).1)
      ∙ ifmap-init_interface_method s b

  methods_zero :
      (names : List Text) (b : Built) (k : ℕ)
      → (methods lib h names (b, k)).1 ≡ 0
      → (k ≡ 0) × Has lib h names
  unfolding methods
  methods_zero [] b k e = (e, tt)
  methods_zero (s ∷ names) b k e =
      let b' = (init_interface_method lib h s b).0 in
      let f = (init_interface_method lib h s b).1 in
      let (z, rest) = methods_zero names b' (k + f) e in
      (omega arith, (init_interface_method_zero s b (omega arith), rest))

  init_interface_zero :
      (i : ℕ) (missing : Text) (names : List Text) (b : Built)
      → (init_interface lib h i missing names b).1 ≡ 0
      → (lib.has_interface h i ≡ true)
        × Has lib h names
        × ((init_interface lib h i missing names b).0.ifmap ≡ b.ifmap ++ i ∷ [])
  unfolding init_interface
  init_interface_zero i missing names b e =
      let r = methods lib h names (b, 0) in
      elim (Bool-cases (lib.has_interface h i)) [
        | inl found ↦ (
          found,
          (methods_zero names b 0 (ground (arith, e))).1,
          ground (arith, e, ifmap-methods names b 0),
        )
        | inr missing_one ↦ absurd (ground (arith, e))
      ]

  with_1_zero :
      (b : Built) (k : ℕ)
      → (with_1 lib h (b, k)).1 ≡ 0
      → ((k ≡ 0) × ((init_interface_1 lib h b).1 ≡ 0))
        × ((with_1 lib h (b, k)).0 ≡ (init_interface_1 lib h b).0)
  unfolding with_1
  with_1_zero b k e = ground (arith, e)

  with_0_zero :
      (b : Built) (k : ℕ)
      → (with_0 lib h (b, k)).1 ≡ 0
      → (k ≡ 0)
        × ((with_1 lib h (init_interface_0 lib h b)).1 ≡ 0)
        × ((with_0 lib h (b, k)).0 ≡ (with_1 lib h (init_interface_0 lib h b)).0)
  unfolding with_0
  with_0_zero b k e = ground (arith, e)

  pub init_interfaces_zero :
      (b : Built)
      → (init_interfaces lib h b).1 ≡ 0
      → IsReady lib h × ((init_interfaces lib h b).0.ifmap ≡ (b.ifmap ++ 0 ∷ []) ++ 1 ∷ [])
  unfolding init_interfaces init_interface_0 init_interface_1
  init_interfaces_zero b e =
      let r = methods lib h base_symbols (b, 0) in
      let r0 = init_interface_0 lib h r.0 in
      let (zero_base, zero_1, same_0) = with_0_zero r.0 r.1 e in
      let ((zero_0, zero_if1), same_1) = with_1_zero r0.0 r0.1 zero_1 in
      let (has_0, all_0, map_0) =
        init_interface_zero 0 (codes "Interface IF0 not available.") symbols_0 r.0 zero_0 in
      let (has_1, all_1, map_1) =
        init_interface_zero 1 (codes "Interface IF1 not available.") symbols_1 r0.0 zero_if1 in
      (
        record {
          base = (methods_zero base_symbols b 0 zero_base).1;
          if0 = all_0;
          if1 = all_1;
          has_0 = has_0;
          has_1 = has_1;
        },
        ap (λ x. x.ifmap) same_0
            ∙ ap (λ x. x.ifmap) same_1
            ∙ map_1
            ∙ ap (λ x. x ++ 1 ∷ [])
                (map_0 ∙ ap (λ x. x ++ 0 ∷ []) (ifmap-methods base_symbols b 0)),
      )
