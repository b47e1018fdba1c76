-- ===== src/EventLoop/Order.antt =====
-- The table of delayed tasks is kept in the order in which the tasks become due.
use telephony_call_manager_m.Prelude.{
  ℕ, ◌≤◌, ◌<◌, ◌≡◌, inl, inr, refl, ap, sym, subst, ◌∙◌, false, List, [], ◌∷◌, ◌++◌, arith,
  Bool-cases, leb→le,
}
use telephony_call_manager_m.Prelude.Eq.{◌==◌, nat_eq, ==→≡}
use telephony_call_manager_m.Prelude.Search.{All, All-mono}
use telephony_call_manager_m.EventLoop.{
  DelayedTask, is_due, insert_among_equal, insert_delayed, two_32,
}
use telephony_call_manager_m.EventLoop.Tick.{key, InWindow, is_due-key}

module _ {ℓ} {A : Type ℓ} (base : ℕ) where
  abbrev pub key_of : DelayedTask A → ℕ
  key_of x = key base x.due_tick

  -- Every tick of the table lies in the half range from `base` on.
  abbrev pub AllIn : List (DelayedTask A) → Type 0
  AllIn = All (λ x. InWindow base x.due_tick)

  abbrev pub IsOrdered : List (DelayedTask A) → Type 0
  IsOrdered [] = Unit
  IsOrdered (x ∷ xs) = All (λ y. key_of x ≤ key_of y) xs × IsOrdered xs

  -- The entry stands behind everything that is due no later, and before everything that is due later.
  pub record Placed (e : DelayedTask A) (xs r : List (DelayedTask A)) : Type ℓ where
    pub before : List (DelayedTask A)
    pub behind : List (DelayedTask A)
    pub whole : xs ≡ before ++ behind
    pub result : r ≡ before ++ (e ∷ behind)
    pub no_later : All (λ x. key_of x ≤ key_of e) before
    pub later : All (λ x. key_of e < key_of x) behind

  Placed-cons :
      (x e : DelayedTask A) (xs r : List (DelayedTask A))
      → key_of x ≤ key_of e
      → Placed e xs r
      → Placed e (x ∷ xs) (x ∷ r)
  Placed-cons x e xs r le p = record {
    before = x ∷ p.before;
    behind = p.behind;
    whole = ap (λ l. x ∷ l) p.whole;
    result = ap (λ l. x ∷ l) p.result;
    no_later = (le, p.no_later);
    later = p.later;
  }

  Placed-here :
      (e : DelayedTask A) (xs : List (DelayedTask A))
      → All (λ x. key_of e < key_of x) xs
      → Placed e xs (e ∷ xs)
  Placed-here e xs a = record {
    before = [];
    behind = xs;
    whole = refl;
    result = refl;
    no_later = tt;
    later = a;
  }

  among_equal-Placed :
      (e : DelayedTask A) (xs : List (DelayedTask A))
      → base < two_32
      → InWindow base e.due_tick
      → AllIn xs
      → IsOrdered xs
      → All (λ x. key_of e ≤ key_of x) xs
      → Placed e xs (insert_among_equal e xs)
  unfolding insert_among_equal
  among_equal-Placed e [] lt we w o a = Placed-here e [] tt
  among_equal-Placed e (x ∷ xs) lt we w o a = elim (Bool-cases (x.due_tick == e.due_tick)) [
    | inl h ↦ rw h (
        Placed-cons x e xs _ (rw (==→≡ x.due_tick e.due_tick h) (omega arith))
          (among_equal-Placed e xs lt we w.1 o.1 a.1))
    | inr h ↦
        rw h (Placed-here e (x ∷ xs) (head h, All-mono (λ y le. omega (arith, head h, le)) xs o.0))
  ]
    where
      head : (x.due_tick == e.due_tick) ≡ false → key_of e < key_of x
      head h = ground (arith, h, a.0, w.0, we, lt)

  pub insert_delayed-Placed :
      (e : DelayedTask A) (xs : List (DelayedTask A))
      → base < two_32
      → InWindow base e.due_tick
      → AllIn xs
      → IsOrdered xs
      → Placed e xs (insert_delayed e xs)
  unfolding insert_delayed
  insert_delayed-Placed e [] lt we w o = Placed-here e [] tt
  insert_delayed-Placed e (x ∷ xs) lt we w o =
      let k = is_due-key base e.due_tick x.due_tick lt we w.0 in
      elim (Bool-cases (is_due e.due_tick x.due_tick)) [
        | inl h ↦
            let le : key_of e ≤ key_of x = leb→le _ _ (sym k ∙ h) in
            rw h (
              among_equal-Placed e (x ∷ xs) lt we w o
                (le, All-mono (λ y more. omega (arith, le, more)) xs o.0))
        | inr h ↦
            rw h (
              Placed-cons x e xs _ (ground (arith, k, h))
                (insert_delayed-Placed e xs lt we w.1 o.1))
      ]

  IsOrdered-insert :
      (e : DelayedTask A) (xs ys : List (DelayedTask A))
      → IsOrdered (xs ++ ys)
      → All (λ x. key_of x ≤ key_of e) xs
      → All (λ x. key_of e < key_of x) ys
      → IsOrdered (xs ++ (e ∷ ys))
  IsOrdered-insert e [] ys o a b = (All-mono (λ y lt. omega (arith, lt)) ys b, o)
  IsOrdered-insert e (x ∷ xs) ys o a b =
      (All-insert _ e xs ys o.0 a.0, IsOrdered-insert e xs ys o.1 a.1 b)
    where
      All-insert :
          (P : DelayedTask A → Type 0) (e : DelayedTask A) (xs ys : List (DelayedTask A))
          → All P (xs ++ ys)
          → P e
          → All P (xs ++ (e ∷ ys))
      All-insert P e [] ys a p = (p, a)
      All-insert P e (x ∷ xs) ys a p = (a.0, All-insert P e xs ys a.1 p)

  -- In a table whose ticks lie in one half range and are in order, a new entry goes behind every entry
  -- that is due no later and before every entry that is due later, and the table stays in order.
  pub insert_delayed-IsOrdered :
      (e : DelayedTask A) (xs : List (DelayedTask A))
      → base < two_32
      → InWindow base e.due_tick
      → AllIn xs
      → IsOrdered xs
      → Placed e xs (insert_delayed e xs) × IsOrdered (insert_delayed e xs)
  insert_delayed-IsOrdered e xs lt we w o =
      let p = insert_delayed-Placed e xs lt we w o in
      (
        p,
        rw p.result
            (IsOrdered-insert e p.before p.behind (subst IsOrdered p.whole o) p.no_later p.later),
      )
