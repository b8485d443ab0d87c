-- ===== src/Io/Pipeline.antt =====
-- src/tdk/io/ip/tcp/pipeline: pipeline.cpp, filter_chain.cpp and filter.cpp, and the calls of the
-- first and the last filter in channel_epoll.cpp. The pipelines of UDP have the same code.
-- A filter is its address; what is at a deleted address is none.
pub mod Links
pub mod Chain
pub mod Walk
pub mod Again
pub mod Delivery
mod Tests
use deprecated_tdk.Prelude.{
  ℕ, zero, suc, Bool, true, false, ◌&&◌, Option, none, some, List, [], ◌∷◌, ◌==◌, if◌then◌else◌,
}
use deprecated_tdk.Io.Result.{Result, crashed, spins, returned, ◌>>=◌}

-- `std::string`, by its characters.
abbrev pub Name : Type 0
Name = List ℕ

-- `f->name() == name`
pub same_name : Name → Name → Bool
same_name [] [] = true
same_name [] (b ∷ bs) = false
same_name (a ∷ more) [] = false
same_name (a ∷ more) (b ∷ bs) = (a == b) && same_name more bs

pub record Filter : Type 0 where
  pub channel : Option ℕ
  pub in_bound : Option ℕ
  pub out_bound : Option ℕ
  pub name : Name

-- `filter::filter()`
abbrev pub new_filter : Filter
new_filter = record { channel = none; in_bound = none; out_bound = none; name = [] }

abbrev pub Memory : Type 0
Memory = ℕ → Option Filter

abbrev pub put : ℕ → Option Filter → Memory → Memory
put f v m p = if f == p then v else m p

-- The filter behind a pointer.
pub load : Memory → ℕ → Result Filter
load m f = elim (m f) [ none ↦ crashed | some v ↦ returned v ]

-- A setter of a filter.
pub change : ℕ → (Filter → Filter) → Memory → Result Memory
change f to m = load m f >>= λ v. returned (put f (some (to v)) m)

pub record FilterChain : Type 0 where
  pub head : Option ℕ
  pub tail : Option ℕ

abbrev pub new_chain : FilterChain
new_chain = record { head = none; tail = none }

-- `filter_chain::add`
pub chain_add : ℕ → Memory → FilterChain → Result (Memory × FilterChain)
chain_add f m chain = elim chain.tail [
  | none ↦ returned (m, record { head = some f; tail = some f })
  | some tail ↦ change tail (λ v. record v { in_bound = some f }) m >>= λ m₁.
      change f (λ v. record v { out_bound = some tail }) m₁ >>= λ m₂.
      returned (m₂, record chain { tail = some f })
]

-- `filter_chain::~filter_chain`, from `_head`; `on_delete` is `delete this`.
pub delete_from : ℕ → Option ℕ → Memory → Result Memory
delete_from zero head m = spins
delete_from (suc fuel) none m = returned m
delete_from (suc fuel) (some d) m = load m d >>= λ v. delete_from fuel v.in_bound (put d none m)

pub record Pipeline : Type 0 where
  pub channel : ℕ
  pub chain : FilterChain

-- `pipeline::pipeline( channel )`
abbrev pub new_pipeline : ℕ → Pipeline
new_pipeline c = record { channel = c; chain = new_chain }

pub add : Name → ℕ → Memory → Pipeline → Result (Memory × Pipeline)
add name f m p = change f (λ v. record v { name = name }) m >>= λ m₁.
    change f (λ v. record v { channel = some p.channel }) m₁ >>= λ m₂.
    chain_add f m₂ p.chain >>= λ r. returned (r.0, record p { chain = r.1 })

pub find_from : Name → ℕ → Memory → Option ℕ → Result (Option ℕ)
find_from name zero m f = spins
find_from name (suc fuel) m none = returned none
find_from name (suc fuel) m (some f) = load m f >>= λ v. elim (same_name v.name name) [
  | true ↦ returned (some f)
  | false ↦ find_from name fuel m v.in_bound
]

pub find : Name → ℕ → Memory → Pipeline → Result (Option ℕ)
find name fuel m p = find_from name fuel m p.chain.head

-- Whose own handler a call arrives at.
pub data Receiver : Type 0 where
  nobody : Receiver
  to_filter to_channel : ℕ → Receiver

-- `own f`: the class of `f` has a handler of its own, in place of the one of `filter`.
module _ (own : ℕ → Bool) where
  -- `on_accepted`, `on_connected`, `on_error`, `on_read`, `on_closed` and `on_write` of a filter.
  pub event : ℕ → Memory → ℕ → Result Receiver
  event zero m f = spins
  event (suc fuel) m f = elim (own f) [
    | true ↦ load m f >>= λ v. returned (to_filter f)
    | false ↦ load m f >>= λ v. elim v.in_bound [ none ↦ returned nobody | some g ↦ event fuel m g ]
  ]

  -- `do_write` of a filter.
  pub do_write : ℕ → Memory → ℕ → Result Receiver
  do_write zero m f = spins
  do_write (suc fuel) m f = elim (own f) [
    | true ↦ load m f >>= λ v. returned (to_filter f)
    | false ↦ load m f >>= λ v. elim v.out_bound [
      | none ↦ elim v.channel [ none ↦ crashed | some c ↦ returned (to_channel c) ]
      | some g ↦ do_write fuel m g
    ]
  ]

  -- `write_out_bound`, which a `do_write` of its own ends with.
  pub write_out_bound : ℕ → Memory → ℕ → Result Receiver
  write_out_bound fuel m f = load m f >>= λ v. elim v.out_bound [
    | none ↦ elim v.channel [ none ↦ crashed | some c ↦ returned (to_channel c) ]
    | some g ↦ do_write fuel m g
  ]

  -- `_pipeline.in_bound_filter()->on_read( msg )`, and so the other events of a channel.
  pub fire_event : ℕ → Memory → Pipeline → Result Receiver
  fire_event fuel m p = elim p.chain.head [ none ↦ crashed | some f ↦ event fuel m f ]

  -- `_pipeline.out_bound_filter()->do_write( msg )`
  pub fire_do_write : ℕ → Memory → Pipeline → Result Receiver
  fire_do_write fuel m p = elim p.chain.tail [ none ↦ crashed | some f ↦ do_write fuel m f ]
