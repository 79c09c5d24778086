-- ===== src/Common/Action.antt =====
-- Python code that changes a state and may raise: from a state to the result and the state after it,
-- with `do` for the sequence of statements. Kept apart from `Results`, whose operators it names alike.
use mathlib.Core.Path.{◌≡◌, refl}
use idx_backtest_lab.Common.Results.{Result, err, ok}

abbrev pub Action : (S : Type 0) (E : Type 0) (A : Type 0) → Type 0
Action S E A = S → Result E A × S

module _ {S E : Type 0} where
  unfoldable pub then_do : {A B : Type 0} → (A → Action S E B) → Result E A × S → Result E B × S
  then_do following (err raised, s) = (err raised, s)
  then_do following (ok returned, s) = following returned s

  infixl 5 ◌>>=◌ ◌>>◌
  unfoldable pub ◌>>=◌ : {A B : Type 0} → Action S E A → (A → Action S E B) → Action S E B
  unfolding then_do
  (call >>= following) s = then_do following (call s)

  unfoldable pub ◌>>◌ : {A B : Type 0} → Action S E A → Action S E B → Action S E B
  unfolding ◌>>=◌
  call >> following = call >>= λ returned. following

  unfoldable pub give : {A : Type 0} → A → Action S E A
  give a s = (ok a, s)

  unfoldable pub fail : {A : Type 0} → E → Action S E A
  fail e s = (err e, s)

  -- What the state is read for.
  unfoldable pub read : {A : Type 0} → (S → A) → Action S E A
  read f s = (ok (f s), s)

  -- A statement that only writes the state.
  unfoldable pub write : (S → S) → Action S E (Unit {0})
  write f s = (ok tt, f s)

  -- `try: body; except Exception: cleanup; raise`
  unfoldable pub clean_up : {A : Type 0} → (S → S) → Result E A × S → Result E A × S
  clean_up cleanup (err raised, s) = (err raised, cleanup s)
  clean_up cleanup (ok returned, s) = (ok returned, s)

  unfoldable pub except_then : {A : Type 0} → Action S E A → (S → S) → Action S E A
  unfolding clean_up
  except_then body cleanup s = clean_up cleanup (body s)

-- A relation between states that holds over nothing, and over one piece of code after another.
pub record IsJourney {S : Type 0} (R : S → S → Type 0) : Type 0 where
  pub still : (s : S) → R s s
  pub onward : (s t u : S) → R s t → R t u → R s u

-- What a piece of code does to the state, whether it raises or not.
abbrev pub Within : {S E A : Type 0} → (S → S → Type 0) → Action S E A → Type 0
Within {S} R call = (s : S) → R s (call s).1

module _ {S E : Type 0} (R : S → S → Type 0) (j : IsJourney R) where
  then_do-Within :
      {A B : Type 0} (following : A → Action S E B)
      → ((a : A) → Within R (following a))
      → (s : S) (outcome : Result E A × S) → R s outcome.1
      → R s (then_do following outcome).1
  unfolding then_do
  then_do-Within following h s (err raised, t) k = k
  then_do-Within following h s (ok returned, t) k = j.onward s t _ k (h returned t)

  pub >>=-Within :
      {A B : Type 0} (call : Action S E A) (following : A → Action S E B)
      → Within R call
      → ((a : A) → Within R (following a))
      → Within R (call >>= following)
  unfolding ◌>>=◌
  >>=-Within call following h k s = then_do-Within following k s (call s) (h s)

  pub >>-Within :
      {A B : Type 0} (call : Action S E A) (following : Action S E B)
      → Within R call
      → Within R following
      → Within R (call >> following)
  unfolding ◌>>◌
  >>-Within call following h k = >>=-Within call (λ returned. following) h (λ returned. k)

  clean_up-Within :
      {A : Type 0} (cleanup : S → S)
      → ((s : S) → R s (cleanup s))
      → (s : S) (outcome : Result E A × S) → R s outcome.1
      → R s (clean_up cleanup outcome).1
  unfolding clean_up
  clean_up-Within cleanup h s (err raised, t) k = j.onward s t _ k (h t)
  clean_up-Within cleanup h s (ok returned, t) k = k

  pub except_then-Within :
      {A : Type 0} (body : Action S E A) (cleanup : S → S)
      → Within R body
      → ((s : S) → R s (cleanup s))
      → Within R (except_then body cleanup)
  unfolding except_then
  except_then-Within body cleanup h k s = clean_up-Within cleanup k s (body s) (h s)

module _ {S E A B : Type 0} where
  then_do-ok :
      (following : A → Action S E B) (outcome : Result E A × S) (b : B) (u : S)
      → then_do following outcome ≡ (ok b, u)
      → (a : A) × (t : S) × (outcome ≡ (ok a, t)) × (following a t ≡ (ok b, u))
  unfolding then_do
  then_do-ok following (err raised, t) b u h = cc
  then_do-ok following (ok a, t) b u h = (a, t, refl, h)

  -- Inversion of a call that was followed by a return.
  pub >>=-returned :
      (call : Action S E A) (following : A → Action S E B) (s u : S) (b : B)
      → (call >>= following) s ≡ (ok b, u)
      → (a : A) × (t : S) × (call s ≡ (ok a, t)) × (following a t ≡ (ok b, u))
  unfolding ◌>>=◌
  >>=-returned call following s u b h = then_do-ok following (call s) b u h

  pub >>-returned :
      (call : Action S E A) (following : Action S E B) (s u : S) (b : B)
      → (call >> following) s ≡ (ok b, u)
      → (a : A) × (t : S) × (call s ≡ (ok a, t)) × (following t ≡ (ok b, u))
  unfolding ◌>>◌
  >>-returned call following s u b h = >>=-returned call (λ returned. following) s u b h

module _ {S E A : Type 0} where
  pub read-returned :
      (f : S → A) (s u : S) (a : A) → read {E = E} f s ≡ (ok a, u) → (a ≡ f s) × (u ≡ s)
  unfolding read
  read-returned f s u a h = (cc, cc)
