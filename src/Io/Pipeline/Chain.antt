-- ===== src/Io/Pipeline/Chain.antt =====
-- `add` puts a filter behind the others.
use deprecated_tdk.Prelude.{
  ℕ, ◌≡◌, ◌≢◌, ◌∙◌, refl, sym, ap, Option, none, some, List, [], ◌∷◌, ◌++◌, All, arith,
}
use deprecated_tdk.Io.Result.{returned, ◌>>=◌}
use deprecated_tdk.Io.Pipeline.{Name, Filter, Memory, put, FilterChain, Pipeline, chain_add, add}
use deprecated_tdk.Io.Pipeline.Links.{
  change_lem, put_self, put-other, Entry, end_of, last_of, Fresh, Stands, single, Linked-agree,
  Fresh-end, last, Linked-end, Linked-snoc,
}

-- The filter in `add`, with its name and its channel.
abbrev pub named : Name → ℕ → Memory → Filter → Pipeline → Memory
named name f m v p =
    put f (some (record v { name = name; channel = some p.channel }))
      (put f (some (record v { name = name })) m)

pub add-named :
    (name : Name) (f : ℕ) (m : Memory) (p : Pipeline) (v : Filter)
    → m f ≡ some v
    → add name f m p
      ≡ (chain_add f (named name f m v p) p.chain >>= λ r. returned (r.0, record p { chain = r.1 }))
unfolding add
add-named name f m p v e =
    let one = change_lem f (λ u. record u { name = name }) m v e in
    let named_one : Memory = put f (some (record v { name = name })) m in
    let two =
      change_lem f (λ u. record u { channel = some p.channel }) named_one (record v { name = name })
        (put_self f (some (record v { name = name })) m) in
    rw (one, two) refl

pub chain_add-first :
    (f : ℕ) (m : Memory) (chain : FilterChain)
    → chain.tail ≡ none
    → chain_add f m chain ≡ returned (m, record { head = some f; tail = some f })
unfolding chain_add
chain_add-first f m chain e = rw e refl

chain_add-next :
    (f t : ℕ) (m : Memory) (chain : FilterChain) (u v : Filter)
    → chain.tail ≡ some t
    → m t ≡ some u
    → m f ≡ some v
    → f ≢ t
    → chain_add f m chain
      ≡ returned (
        put f
            (some (record v { out_bound = some t }))
            (put t (some (record u { in_bound = some f })) m),
        record { head = chain.head; tail = some f },
      )
unfolding chain_add
chain_add-next f t m chain u v e at_t at_f other =
    let one = change_lem t (λ w. record w { in_bound = some f }) m u at_t in
    let m₁ : Memory = put t (some (record u { in_bound = some f })) m in
    let still : m₁ f ≡ some v =
      put-other t f (some (record u { in_bound = some f })) m (λ no. other (sym no)) ∙ at_f in
    let two = change_lem f (λ w. record w { out_bound = some t }) m₁ v still in
    rw (e, one, two) refl

end_of-snoc : (x : Entry) (xs : List Entry) (y : Entry) → last_of ((x ∷ xs) ++ (y ∷ [])) ≡ some y.0
end_of-snoc x [] y = refl
end_of-snoc x (z ∷ xs) y = end_of-snoc z xs y

named-other :
    (name : Name) (f : ℕ) (m : Memory) (v : Filter) (p : Pipeline) (g : ℕ)
    → f ≢ g
    → named name f m v p g ≡ m g
named-other name f m v p g other = ground (arith, other)

named_agree :
    (name : Name) (f : ℕ) (m : Memory) (v : Filter) (p : Pipeline) (xs : List Entry)
    → Fresh f xs
    → All (λ x. named name f m v p x.0 ≡ m x.0) xs
named_agree name f m v p [] fresh = tt
named_agree name f m v p (x ∷ xs) fresh =
    (named-other name f m v p x.0 fresh.0, named_agree name f m v p xs fresh.1)

-- A new filter goes behind the others, under its name and with the channel of the pipeline. Other
-- filters than the last one are as before.
pub add_lem :
    (name : Name) (f : ℕ) (m : Memory) (p : Pipeline) (xs : List Entry) (c : Option ℕ) (old : Name)
    → Stands m p xs
    → Fresh f xs
    → m f ≡ some (single c old)
    → (m' : Memory) × (p' : Pipeline) × (add name f m p ≡ returned (m', p'))
      × Stands m' p' (xs ++ ((f, name) ∷ []))
      × ((g : ℕ) → f ≢ g → some g ≢ last_of xs → m' g ≡ m g)
add_lem name f m p [] c old s fresh e =
    let v : Filter = single c old in
    (
      named name f m v p,
      record p { chain = record { head = some f; tail = some f } },
      add-named name f m p v e ∙ rw (chain_add-first f (named name f m v p) p.chain s.tail) refl,
      record { head = refl; tail = refl; linked = (ground arith, tt, tt) },
      λ g other apart. named-other name f m v p g other,
    )
add_lem name f m p (x ∷ xs) c old s fresh e =
    let v : Filter = single c old in
    let v' : Filter = single (some p.channel) name in
    let t = end_of x xs in
    let m₁ = named name f m v p in
    let linked =
      Linked-agree p.channel m m₁ none (x ∷ xs) (named_agree name f m v p (x ∷ xs) fresh)
        s.linked in
    let u : Filter = last p.channel none x xs in
    let next =
      chain_add-next f t m₁ p.chain u v' s.tail (Linked-end p.channel m₁ none x xs linked)
        (ground arith) (Fresh-end f x xs fresh) in
    (
      put f (some (record v' { out_bound = some t }))
          (put t (some (record u { in_bound = some f })) m₁),
      record p { chain = record { head = p.chain.head; tail = some f } },
      add-named name f m p v e ∙ rw next refl,
      record {
        head = s.head;
        tail = sym (end_of-snoc x xs (f, name));
        linked = Linked-snoc p.channel m₁ none x xs f name fresh linked;
      },
      λ g other apart.
          put-other f g (some (record v' { out_bound = some t }))
            (put t (some (record u { in_bound = some f })) m₁) other
          ∙ put-other t g (some (record u { in_bound = some f })) m₁
              (λ same. apart (ap some (sym same)))
          ∙ named-other name f m v p g other,
    )
