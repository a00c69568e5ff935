-- ===== src/Diagnostics/Named.antt =====
-- Reading back the names of app/instadroid/diagnostics.py.
use instadroid.Prelude.{
  ℕ, zero, suc, ◌/◌, ◌≤◌, ◌<◌, ◌≡◌, ◌≢◌, refl, sym, ◌∙◌, ap, inl, inr, Bool, true, false, none,
  some, [], ◌∷◌, ◌++◌, arith, ltb, ◌==◌, if◌then◌else◌, Bool-cases, ltb→lt, Text, text_eq, text_ne,
  length, length-append, append_assoc, append-nil, All, All-append,
}
use instadroid.Diagnostics.Names.{
  hierarchy_suffix, fail_suffix, digit, padded, dump_stem, is_screen_char, parse_dump_name,
  screen_from, is_started, decimal,
}

abbrev IsScreen : Text → Type 0
IsScreen = All (λ c. is_screen_char c ≡ true)

abbrev tail_of : Bool → Text
tail_of failure = (if failure then fail_suffix else []) ++ hierarchy_suffix

not_fail :
    (c : ℕ) (s : Text)
    → is_screen_char c ≡ true
    → text_eq (c ∷ s) (fail_suffix ++ hierarchy_suffix) ≡ false
unfolding is_screen_char text_eq
not_fail c s h = ground arith

not_suffix :
    (c : ℕ) (s : Text) (failure : Bool)
    → text_eq (c ∷ (s ++ tail_of failure)) hierarchy_suffix ≡ false
not_suffix c s failure = text_ne _ _ (λ e.
    absurd (omega (arith, ap length e, length-append s (tail_of failure), tail_length failure)))
  where
    tail_length : (failure : Bool) → 14 ≤ length (tail_of failure)
    tail_length true = omega arith
    tail_length false = omega arith

is_started-cons : (acc : Text) (c : ℕ) (s : Text) → is_started ((acc ++ c ∷ []) ++ s) ≡ true
unfolding is_started
is_started-cons [] c s = refl
is_started-cons (d ∷ acc) c s = refl

screen_from-screen :
    (failure : Bool) (screen acc : Text)
    → IsScreen screen
    → is_started (acc ++ screen) ≡ true
    → screen_from acc (screen ++ tail_of failure) ≡ some (acc ++ screen, failure)
unfolding screen_from text_eq
screen_from-screen true [] acc h k =
    let k' : is_started acc ≡ true = ap is_started (sym (append-nil acc)) ∙ k in
    rw (append-nil acc, k') refl
screen_from-screen false [] acc h k =
    let k' : is_started acc ≡ true = ap is_started (sym (append-nil acc)) ∙ k in
    rw (append-nil acc, k') refl
screen_from-screen failure (c ∷ s) acc (h, hs) k =
    let longer = screen_from-screen failure s (acc ++ c ∷ []) hs (is_started-cons acc c s) in
    ground (
      arith,
      not_fail c (s ++ tail_of failure) h,
      not_suffix c s failure,
      append_assoc acc (c ∷ []) s,
      longer,
    )

abbrev IsDigit : ℕ → Type 0
IsDigit c = (48 ≤ c) × (c ≤ 57)

decimal-digits : (f n : ℕ) → All IsDigit (decimal f n)
unfolding decimal digit
decimal-digits zero n = tt
decimal-digits (suc f) n = elim (Bool-cases (n == 0)) [
  | inl e ↦ rw e tt
  | inr e ↦ rw e (All-append IsDigit _ _ (decimal-digits f (n / 10)) (omega arith))
]

decimal_pos : (f n : ℕ) → 0 < n → n ≤ f → 1 ≤ length (decimal f n)
unfolding decimal
decimal_pos zero n h k = absurd (omega arith)
decimal_pos (suc f) n h k = ground (arith, length-append (decimal f (n / 10)) (digit n ∷ []))

below : (seq : ℕ) → seq < 1000 → seq / 1000 ≡ 0
below seq h = omega arith

is_started_solid : (s : Text) → s ≢ [] → is_started s ≡ true
unfolding is_started
is_started_solid [] h = absurd (h refl)
is_started_solid (c ∷ s) h = refl

decimal_zero : (f : ℕ) → decimal f 0 ≡ []
unfolding decimal
decimal_zero zero = refl
decimal_zero (suc f) = refl

digit-IsDigit : (n : ℕ) → IsDigit (digit n)
unfolding digit
digit-IsDigit n = omega arith

regroup :
    (ds r suffix : Text) (x y z : ℕ)
    → ((ds ++ x ∷ y ∷ z ∷ []) ++ r) ++ suffix ≡ ds ++ (x ∷ y ∷ z ∷ (r ++ suffix))
regroup ds r suffix x y z = simp append_assoc

module _ (is_digit : ℕ → Bool) (digits : (c : ℕ) → 48 ≤ c → c ≤ 57 → is_digit c ≡ true) where
  parse_fourth :
      (a b c d : ℕ) (s : Text) → IsDigit d → parse_dump_name is_digit (a ∷ b ∷ c ∷ d ∷ s) ≡ none
  unfolding parse_dump_name
  parse_fourth a b c d s h = ground arith

  -- a fourth digit is no dash
  parse_long :
      (ds : Text) (x y z : ℕ) (s : Text)
      → All IsDigit ds
      → 1 ≤ length ds
      → IsDigit x × IsDigit y × IsDigit z
      → parse_dump_name is_digit (ds ++ (x ∷ y ∷ z ∷ s)) ≡ none
  parse_long [] x y z s h k d = absurd (omega arith)
  parse_long (a ∷ []) x y z s h k (dx, dy, dz) = parse_fourth a x y z s dz
  parse_long (a ∷ b ∷ []) x y z s h k (dx, dy, dz) = parse_fourth a b x y (z ∷ s) dy
  parse_long (a ∷ b ∷ c ∷ []) x y z s h k (dx, dy, dz) = parse_fourth a b c x (y ∷ z ∷ s) dx
  parse_long (a ∷ b ∷ c ∷ d ∷ ds) x y z s (_, (_, (_, (h, _)))) k _ =
      parse_fourth a b c d (ds ++ (x ∷ y ∷ z ∷ s)) h

  parse_short :
      (x y z : ℕ) (s : Text)
      → IsDigit x × IsDigit y × IsDigit z
      → parse_dump_name is_digit (x ∷ y ∷ z ∷ b'-' ∷ s) ≡ screen_from [] s
  unfolding parse_dump_name
  parse_short x y z s ((lx, ux), (ly, uy), (lz, uz)) =
      rw (digits x lx ux, digits y ly uy, digits z lz uz) refl

  -- The screen and the failure mark of a capture are read back from the name that it is saved under, as
  -- long as it is among the first 999: a later one is not taken for a capture.
  pub parse_dump_name-dump_stem :
      (seq : ℕ) (screen : Text) (failure : Bool)
      → All (λ c. is_screen_char c ≡ true) screen
      → screen ≢ []
      → parse_dump_name is_digit (dump_stem seq screen failure ++ hierarchy_suffix)
        ≡ (if ltb seq 1000 then some (screen, failure) else none)
  unfolding dump_stem padded
  parse_dump_name-dump_stem seq screen failure h ne =
      let x : ℕ = digit (seq / 100) in
      let y : ℕ = digit (seq / 10) in
      let z : ℕ = digit seq in
      let ds : Text = decimal seq (seq / 1000) in
      let three : IsDigit x × IsDigit y × IsDigit z =
        (digit-IsDigit (seq / 100), digit-IsDigit (seq / 10), digit-IsDigit seq) in
      let r : Text = b'-' ∷ (screen ++ (if failure then fail_suffix else [])) in
      rw (regroup ds r hierarchy_suffix x y z) (elim (Bool-cases (ltb seq 1000)) [
        | inl few ↦
            let nothing : ds ≡ [] = rw (below seq (ltb→lt _ _ few)) (decimal_zero seq) in
            rw (few, nothing)
              (parse_short x y z _ three
                ∙ rw (append_assoc screen (if failure then fail_suffix else []) hierarchy_suffix)
                    (screen_from-screen failure screen [] h (is_started_solid screen ne)))
        | inr many ↦ rw many (
            parse_long ds x y z _ (decimal-digits seq (seq / 1000))
              (decimal_pos seq (seq / 1000) (ground arith) (omega arith)) three)
      ])
