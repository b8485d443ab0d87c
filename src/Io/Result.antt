-- ===== src/Io/Result.antt =====
-- How the handlers of events in src/tdk/io end.
-- `crashed`: the source is undefined, it follows a null pointer or puts an object that is in a list
-- into a list. `spins`: the fuel of a loop has run out.
pub data Result (A : Type 0) : Type 0 where
  crashed spins : Result A
  returned : A → Result A

infixl 5 ◌>>=◌
abbrev pub ◌>>=◌ : {A B : Type 0} → Result A → (A → Result B) → Result B
crashed >>= f = crashed
spins >>= f = spins
returned a >>= f = f a

-- What holds of the value, if there is one.
abbrev pub Returning {ℓ} : {A : Type 0} → (A → Type ℓ) → Result A → Type ℓ
Returning P crashed = Unit
Returning P spins = Unit
Returning P (returned a) = P a

pub >>=-Returning {ℓ κ} :
    {A B : Type 0} (P : A → Type ℓ) (Q : B → Type κ) (r : Result A) (f : A → Result B)
    → Returning P r
    → ((a : A) → P a → Returning Q (f a))
    → Returning Q (r >>= f)
>>=-Returning P Q crashed f p q = tt
>>=-Returning P Q spins f p q = tt
>>=-Returning P Q (returned a) f p q = q a p
