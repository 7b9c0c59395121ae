-- ===== src/Messages/Flow.antt =====
-- A type of messages of week10/main.c as a channel: what has been read, then what waits, is what
-- has been sent.
use systemprogramminglab.Prelude.{
  ℕ, ◌≡◌, refl, sym, ◌∙◌, ap, List, [], ◌∷◌, ◌++◌, append_assoc, append-nil,
}

module _ {A : Type 0} (Means : List ℕ → A → Type 0) where
  -- The messages mean these values, one each, in order.
  abbrev pub Mean : List (List ℕ) → List A → Type 0
  Mean [] [] = Unit
  Mean (m ∷ ms) (a ∷ values) = Means m a × Mean ms values
  Mean _ _ = ⊥

  abbrev pub Flow : List A → List A → List (List ℕ) → Type 0
  Flow sent received waiting =
      (pending : List A) × (sent ≡ received ++ pending) × Mean waiting pending

  Mean-append :
      (ms : List (List ℕ)) (values : List A) (m : List ℕ) (a : A)
      → Mean ms values
      → Means m a
      → Mean (ms ++ (m ∷ [])) (values ++ (a ∷ []))
  Mean-append [] [] m a h k = (k, tt)
  Mean-append [] (x ∷ values) m a h k = absurd h
  Mean-append (l ∷ ms) [] m a h k = absurd h
  Mean-append (l ∷ ms) (x ∷ values) m a h k = (h.0, Mean-append ms values m a h.1 k)

  pub Flow-sends :
      {sent : List A} (received : List A) (waiting : List (List ℕ)) (m : List ℕ) (a : A)
      → Flow sent received waiting
      → Means m a
      → Flow (sent ++ (a ∷ [])) received (waiting ++ (m ∷ []))
  Flow-sends received waiting m a (pending, e, mean) k = (
    pending ++ (a ∷ []),
    ap (λ s. s ++ (a ∷ [])) e ∙ append_assoc received pending _,
    Mean-append waiting pending m a mean k,
  )

  pub Flow-receives :
      {sent : List A} (received : List A) (m : List ℕ) (waiting : List (List ℕ))
      → Flow sent received (m ∷ waiting)
      → (a : A) × Means m a × Flow sent (received ++ (a ∷ [])) waiting
  Flow-receives received m waiting ([], e, mean) = absurd mean
  Flow-receives received m waiting (a ∷ pending, e, mean) =
      (a, mean.0, (pending, e ∙ sym (append_assoc received (a ∷ []) pending), mean.1))

  pub Flow-empty : Flow [] [] []
  Flow-empty = ([], refl, tt)

  -- Where nothing waits, all has been read.
  pub Flow-drained : {sent received : List A} → Flow sent received [] → sent ≡ received
  Flow-drained ([], e, mean) = e ∙ append-nil _
  Flow-drained (a ∷ pending, e, mean) = absurd mean
