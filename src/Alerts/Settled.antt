-- ===== src/Alerts/Settled.antt =====
-- app/instadroid/alerts.py: update() settles the alerts table on the conditions.
use instadroid.Prelude.{
  ℕ, ◌≡◌, refl, true, false, ◌&&◌, Option, none, some, is_some, List, [], ◌∷◌, ◌++◌, arith,
  if◌then◌else◌, Text, text_eq, text_eq_iff, text_eq_refl, keep, length, any, All, All-mono,
  Option-cases, inl, inr,
}
use instadroid.Alerts.Conditions.{Alerting, account_condition, needs_human}
use instadroid.Alerts.Table.{
  Alert, lookup, message_of, set_message, raise, raise_all, holds, raised_of, resolved_of, update,
}

-- a dict: no kind twice
abbrev pub IsDict : List (Text × Text) → Type 0
IsDict [] = Unit
IsDict ((k, m) ∷ items) = (lookup k items ≡ none) × IsDict items

message_of-append :
    (k : Text) (xs : List Alert) (a : Alert)
    → message_of k (xs ++ a ∷ []) ≡ elim (message_of k xs) [
      | none ↦ if text_eq a.kind k then some a.message else none
      | some m ↦ some m
    ]
unfolding message_of
message_of-append k [] a = refl
message_of-append k (x ∷ xs) a = ground (arith, message_of-append k xs a)

message_of-set_message :
    (j k m : Text) (xs : List Alert)
    → message_of j (set_message k m xs)
      ≡ (if text_eq k j && is_some (message_of j xs) then some m else message_of j xs)
unfolding message_of set_message
message_of-set_message j k m [] = ground arith
message_of-set_message j k m (x ∷ xs) = ground (
  arith,
  message_of-set_message j k m xs,
  text_eq_iff x.kind j,
  text_eq_iff x.kind k,
  text_eq_iff k j,
)

message_of-raise :
    (j k m : Text) (now : ℕ) (xs : List Alert)
    → message_of j (raise (message_of k xs) k m now xs)
      ≡ (if text_eq k j then some m else message_of j xs)
unfolding raise
message_of-raise j k m now xs = elim (Option-cases (message_of k xs)) [
  | inl e ↦ ground (
    arith,
    e,
    message_of-append j xs (record { kind = k; message = m; raised_at = now }),
    text_eq_iff k j,
  )
  | inr (old, e) ↦
      ground (arith, e, message_of-set_message j k m xs, text_eq_iff k j, text_eq_iff old m)
]

absent-All :
    (k : Text) (items : List (Text × Text))
    → lookup k items ≡ none
    → All (λ p. text_eq p.0 k ≡ false) items
unfolding lookup
absent-All k [] h = tt
absent-All k ((j, m) ∷ items) h = (ground (arith, h), absent-All k items (ground (arith, h)))

-- a raise leaves what the table had under the kinds that are still to come
raise-All :
    (open_alerts : List Alert) (k m : Text) (now : ℕ) (xs : List Alert) (items : List (Text × Text))
    → All (λ p. text_eq p.0 k ≡ false) items
    → All (λ p. message_of p.0 open_alerts ≡ message_of p.0 xs) items
    → All
        (λ p. message_of p.0 open_alerts ≡ message_of p.0 (raise (message_of k xs) k m now xs))
        items
raise-All open_alerts k m now xs [] h i = tt
raise-All open_alerts k m now xs (p ∷ items) (e, h) (f, i) = (
  ground (arith, e, f, message_of-raise p.0 k m now xs, text_eq_iff p.0 k, text_eq_iff k p.0),
  raise-All open_alerts k m now xs items h i,
)

message_of-raise_all :
    (j : Text) (open_alerts : List Alert) (current : List (Text × Text)) (now : ℕ) (xs : List Alert)
    → IsDict current
    → All (λ p. message_of p.0 open_alerts ≡ message_of p.0 xs) current
    → message_of j (raise_all open_alerts current now xs)
      ≡ elim (lookup j current) [ none ↦ message_of j xs | some m ↦ some m ]
unfolding raise_all lookup
message_of-raise_all j open_alerts [] now xs d h = refl
message_of-raise_all j open_alerts ((k, m) ∷ current) now xs (absent, d) (e, h) = rw e (
    ground (
      arith,
      absent,
      text_eq_iff k j,
      message_of-raise j k m now xs,
      message_of-raise_all j open_alerts current now (raise (message_of k xs) k m now xs) d
          (raise-All open_alerts k m now xs current (absent-All k current absent) h),
    ))

message_of-keep :
    (j : Text) (current : List (Text × Text)) (xs : List Alert)
    → message_of j (keep (holds current) xs)
      ≡ (if is_some (lookup j current) then message_of j xs else none)
unfolding message_of keep holds
message_of-keep j current [] = ground arith
message_of-keep j current (x ∷ xs) =
    ground (arith, message_of-keep j current xs, text_eq_iff x.kind j)

same-All :
    (xs : List Alert) (items : List (Text × Text))
    → All (λ p. message_of p.0 xs ≡ message_of p.0 xs) items
same-All xs [] = tt
same-All xs (p ∷ items) = (refl, same-All xs items)

-- Where no condition is listed twice, the alerts that are open after update() are exactly the
-- conditions that hold, each with its present message.
pub update-settles :
    (current : List (Text × Text)) (now : ℕ) (alerts : List Alert) (k : Text)
    → IsDict current
    → message_of k (update current now alerts).0 ≡ lookup k current
unfolding update
update-settles current now alerts k d = ground (
  arith,
  message_of-keep k current (raise_all alerts current now alerts),
  message_of-raise_all k alerts current now alerts d (same-All alerts current),
)

raised_of-settled :
    (current : List (Text × Text)) (alerts : List Alert)
    → All (λ p. is_some (message_of p.0 alerts) ≡ true) current
    → raised_of alerts current ≡ []
unfolding raised_of
raised_of-settled [] alerts h = refl
raised_of-settled ((k, m) ∷ current) alerts (e, h) =
    ground (arith, e, raised_of-settled current alerts h)

resolved_of-kept :
    (current : List (Text × Text)) (xs : List Alert)
    → resolved_of current (keep (holds current) xs) ≡ []
unfolding resolved_of keep
resolved_of-kept current [] = refl
resolved_of-kept current (x ∷ xs) = ground (arith, resolved_of-kept current xs)

listed-All : (items : List (Text × Text)) → All (λ p. is_some (lookup p.0 items) ≡ true) items
unfolding lookup
listed-All [] = tt
listed-All ((k, m) ∷ items) =
    (ground (arith, text_eq_refl k), All-mono items (λ p e. ground (arith, e)) (listed-All items))

-- A second update() with the same conditions announces nothing, whenever it comes.
update-quiet :
    (current : List (Text × Text)) (now later : ℕ) (alerts : List Alert)
    → IsDict current
    → (update current later (update current now alerts).0).1 ≡ []
unfolding update
update-quiet current now later alerts d =
    let after = keep (holds current) (raise_all alerts current now alerts) in
    ground (
      arith,
      resolved_of-kept current (raise_all alerts current now alerts),
      raised_of-settled current after (
          All-mono current (λ p e. ground (arith, e, update-settles current now alerts p.0 d))
            (listed-All current)),
    )

-- The account is alerted on exactly when its latest error makes the scraper hold itself.
pub account_condition-needs_human :
    (a : Alerting) (error : Option Text)
    → length (account_condition a error) ≡ (if needs_human error then 1 else 0)
unfolding account_condition needs_human any
account_condition-needs_human a none = refl
account_condition-needs_human a (some e) = ground arith
