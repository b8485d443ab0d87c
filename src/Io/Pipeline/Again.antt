-- ===== src/Io/Pipeline/Again.antt =====
-- A filter that is added to a pipeline again.
use deprecated_tdk.Prelude.{
  ℕ, zero, suc, ◌≡◌, ◌≢◌, ◌∙◌, refl, Option, none, some, [], Bool-cases, inl, inr, arith,
}
use deprecated_tdk.Io.Result.{crashed, spins, returned, ◌>>=◌}
use deprecated_tdk.Io.Pipeline.{
  Name, same_name, Filter, Memory, put, load, FilterChain, Pipeline, chain_add, delete_from, add,
  find_from, find,
}
use deprecated_tdk.Io.Pipeline.Links.{load_lem, change_lem, put_self, Stands, single}
use deprecated_tdk.Io.Pipeline.Chain.{named, add-named, chain_add-first}
use deprecated_tdk.Io.Pipeline.Walk.{same_name-equal, find_from-on}

-- A filter that points to itself.
abbrev loop : ℕ → ℕ → Name → Filter
loop c f name = record { channel = some c; in_bound = some f; out_bound = some f; name = name }

find_from-spins :
    (other name : Name) (fuel c : ℕ) (m : Memory) (f : ℕ)
    → m f ≡ some (loop c f name)
    → name ≢ other
    → find_from other fuel m (some f) ≡ spins
unfolding find_from
find_from-spins other name zero c m f there apart = refl
find_from-spins other name (suc fuel) c m f there apart = elim (Bool-cases (same_name name other)) [
  | inl e ↦ absurd (apart (same_name-equal name other e))
  | inr e ↦
      find_from-on other fuel m f _ there e ∙ find_from-spins other name fuel c m f there apart
]

delete_from-twice :
    (fuel c : ℕ) (m : Memory) (f : ℕ) (name : Name)
    → m f ≡ some (loop c f name)
    → delete_from (suc (suc fuel)) (some f) m ≡ crashed
unfolding delete_from load
delete_from-twice fuel c m f name there =
    let here = load_lem m f _ there in
    let gone : load (put f none m) f ≡ crashed = rw (load, put_self f none m) refl in
    rw here (rw gone refl)

chain_add_self :
    (f : ℕ) (m : Memory) (chain : FilterChain) (v : Filter)
    → chain.tail ≡ some f
    → m f ≡ some v
    → (m' : Memory) × (chain_add f m chain
        ≡ returned (m', record { head = chain.head; tail = some f }))
      × (m' f ≡ some (record v { in_bound = some f; out_bound = some f }))
unfolding chain_add
chain_add_self f m chain v e there =
    let v₁ : Filter = record v { in_bound = some f } in
    let v₂ : Filter = record v₁ { out_bound = some f } in
    let m₁ : Memory = put f (some v₁) m in
    let one = change_lem f (λ w. record w { in_bound = some f }) m v there in
    let two = change_lem f (λ w. record w { out_bound = some f }) m₁ v₁ (put_self f (some v₁) m) in
    (put f (some v₂) m₁, rw (e, one, two) refl, put_self f (some v₂) m₁)

-- A filter that is added to an empty pipeline twice points to itself: `find` of another name never
-- ends, and the destructor deletes the filter a second time.
add-again :
    (name again : Name) (f : ℕ) (m : Memory) (p : Pipeline) (c : Option ℕ) (old : Name)
    → Stands m p []
    → m f ≡ some (single c old)
    → (m' : Memory) × (p' : Pipeline) × ((add name f m p >>= λ r. add again f r.0 r.1)
        ≡ returned (m', p'))
      × ((other : Name) (fuel : ℕ) → again ≢ other → find other fuel m' p' ≡ spins)
      × ((fuel : ℕ) → delete_from (suc (suc fuel)) p'.chain.head m' ≡ crashed)
unfolding find
add-again name again f m p c old s there =
    let v : Filter = single c old in
    let v₁ : Filter = single (some p.channel) name in
    let m₁ : Memory = named name f m v p in
    let p₁ : Pipeline = record p { chain = record { head = some f; tail = some f } } in
    let first : add name f m p ≡ returned (m₁, p₁) =
      add-named name f m p v there ∙ rw (chain_add-first f m₁ p.chain s.tail) refl in
    let m₂ : Memory = named again f m₁ v₁ p₁ in
    let (m₃, self, loops) =
      chain_add_self f m₂ p₁.chain (single (some p.channel) again) refl (ground arith) in
    (
      m₃,
      p₁,
      rw first (add-named again f m₁ p₁ v₁ (ground arith) ∙ rw self refl),
      (λ other fuel apart. find_from-spins other again fuel p.channel m₃ f loops apart),
      λ fuel. delete_from-twice fuel p.channel m₃ f again loops,
    )
