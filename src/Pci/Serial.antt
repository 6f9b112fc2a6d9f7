-- ===== src/Pci/Serial.antt =====
-- The serial number of a device in src/pci_caps.cpp.
use rocm_validation_suite.Prelude.{
  ℕ, ◌+◌, ◌/◌, ◌%◌, ◌^◌, ◌<◌, ◌≡◌, ◌≢◌, refl, sym, ◌∙◌, List, [], ◌∷◌, ◌++◌, length, All, Text,
  arith,
}
use rocm_validation_suite.Pci.Caps.{PciDev, extended, pci_dev_find_cap_offset}
use rocm_validation_suite.Pci.Fields.{hex_digit, hex2, dashed, serial_text, get_dev_serial_num}

hex_digit_back : (a b : ℕ) → a < 16 → b < 16 → hex_digit b'a' a ≡ hex_digit b'a' b → a ≡ b
unfolding hex_digit
hex_digit_back a b ha hb e = ground (arith, e)

hex2_back :
    (a b : ℕ) (r s : Text) → a < 256 → b < 256 → hex2 a ++ r ≡ hex2 b ++ s → (a ≡ b) × (r ≡ s)
unfolding hex2
hex2_back a b r s ha hb e =
    let high : hex_digit b'a' (a / 16) ≡ hex_digit b'a' (b / 16) = cc in
    let low : hex_digit b'a' (a % 16) ≡ hex_digit b'a' (b % 16) = cc in
    let rest : r ≡ s = cc in
    let h = hex_digit_back (a / 16) (b / 16) (omega arith) (omega arith) high in
    let l = hex_digit_back (a % 16) (b % 16) (omega arith) (omega arith) low in
    (omega (arith, h, l), rest)

dashed_back :
    (ns ms : List ℕ)
    → length ns ≡ length ms
    → All (λ n. n < 256) ns
    → All (λ n. n < 256) ms
    → dashed ns ≡ dashed ms
    → ns ≡ ms
unfolding dashed
dashed_back [] [] len hn hm e = refl
dashed_back [] (m ∷ ms) len hn hm e = absurd (omega (arith, len))
dashed_back (n ∷ ns) [] len hn hm e = absurd (omega (arith, len))
dashed_back (n ∷ ns) (m ∷ ms) len hn hm e =
    let e' : hex2 n ++ dashed ns ≡ hex2 m ++ dashed ms = cc in
    let (head, rest) = hex2_back n m (dashed ns) (dashed ms) hn.0 hm.0 e' in
    let tail = dashed_back ns ms (omega (arith, len)) hn.1 hm.1 rest in cc

word_back :
    (t u : ℕ)
    → t / 2 ^ 24 ≡ u / 2 ^ 24
    → t / 2 ^ 16 % 256 ≡ u / 2 ^ 16 % 256
    → t / 2 ^ 8 % 256 ≡ u / 2 ^ 8 % 256
    → t % 256 ≡ u % 256
    → t ≡ u
word_back t u e1 e2 e3 e4 = omega arith

-- The bytes after the first.
abbrev bytes : ℕ → ℕ → List ℕ
bytes t1 t2 =
    t2 / 2 ^ 16 % 256
    ∷ t2 / 2 ^ 8 % 256
    ∷ t2 % 256
    ∷ t1 / 2 ^ 24
    ∷ t1 / 2 ^ 16 % 256
    ∷ t1 / 2 ^ 8 % 256
    ∷ t1 % 256
    ∷ []

bytes_small : (t1 t2 : ℕ) → t1 < 2 ^ 32 → All (λ n. n < 256) (bytes t1 t2)
bytes_small t1 t2 h = (
  omega arith,
  (omega arith, (omega arith, (omega arith, (omega arith, (omega arith, (omega arith, tt)))))),
)

serial_text_back :
    (t1 t2 u1 u2 : ℕ)
    → t1 < 2 ^ 32
    → t2 < 2 ^ 32
    → u1 < 2 ^ 32
    → u2 < 2 ^ 32
    → serial_text t1 t2 ≡ serial_text u1 u2
    → (t1 ≡ u1) × (t2 ≡ u2)
unfolding serial_text
serial_text_back t1 t2 u1 u2 ht1 ht2 hu1 hu2 e =
    let (head, rest) =
      hex2_back (t2 / 2 ^ 24) (u2 / 2 ^ 24) (dashed (bytes t1 t2)) (dashed (bytes u1 u2))
        (omega arith) (omega arith) e in
    let same : bytes t1 t2 ≡ bytes u1 u2 =
      dashed_back (bytes t1 t2) (bytes u1 u2) refl (bytes_small t1 t2 ht1) (bytes_small u1 u2 hu1)
        rest in
    let b1 : t2 / 2 ^ 16 % 256 ≡ u2 / 2 ^ 16 % 256 = cc in
    let b2 : t2 / 2 ^ 8 % 256 ≡ u2 / 2 ^ 8 % 256 = cc in
    let b3 : t2 % 256 ≡ u2 % 256 = cc in
    let a0 : t1 / 2 ^ 24 ≡ u1 / 2 ^ 24 = cc in
    let a1 : t1 / 2 ^ 16 % 256 ≡ u1 / 2 ^ 16 % 256 = cc in
    let a2 : t1 / 2 ^ 8 % 256 ≡ u1 / 2 ^ 8 % 256 = cc in
    let a3 : t1 % 256 ≡ u1 % 256 = cc in
    (word_back t1 u1 a0 a1 a2 a3, word_back t2 u2 head b1 b2 b3)

-- The registers of the serial number, at an offset.
abbrev pub serial : PciDev → ℕ → ℕ × ℕ
serial d offset = (d.pci_read_long (offset + 4) % 2 ^ 32, d.pci_read_long (offset + 8) % 2 ^ 32)

-- Two devices that have a serial number get the same text only if their numbers are the same: the
-- text tells any two of them apart.
pub get_dev_serial_num_injective :
    (d e : PciDev) (p q : ℕ)
    → pci_dev_find_cap_offset d.caps 3 extended ≡ p
    → pci_dev_find_cap_offset e.caps 3 extended ≡ q
    → p ≢ 0
    → q ≢ 0
    → get_dev_serial_num d ≡ get_dev_serial_num e
    → serial d p ≡ serial e q
unfolding get_dev_serial_num
get_dev_serial_num_injective d e p q at_p at_q hp hq same =
    let left : get_dev_serial_num d ≡ serial_text (serial d p).0 (serial d p).1 =
      ground (arith, at_p, hp) in
    let right : get_dev_serial_num e ≡ serial_text (serial e q).0 (serial e q).1 =
      ground (arith, at_q, hq) in
    let (a, b) =
      serial_text_back _ _ _ _ (omega arith) (omega arith) (omega arith) (omega arith)
        (sym left ∙ (same ∙ right)) in
    cc
