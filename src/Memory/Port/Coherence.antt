-- ===== src/Memory/Port/Coherence.antt =====
-- The prefetched word against main memory: each operation of the port, and a store, keeps them
-- alike.
use muir.Base.{ℕ, ◌+◌, ◌%◌, leb, ◌==◌, Bool, true, false}
use muir.Base.{some, none, List, get_or, set, length, ◌≡◌, ◌≢◌, refl, sym}
use muir.Base.{◌∙◌, ◌⊎◌, arith, Bool-cases, Option-cases, inl, inr, get_or-set_ne}
use muir.Memory.Cache.{holds}
use muir.Memory.Port.{MemoryPort, Prefetched, Responder}
use muir.Memory.Port.{poll, mclk_edge, memory_cycle, request_at, read_answered}
use muir.Memory.Port.{invalidate_cache}
use muir.Memory.Port.{is_page, fill_ns}

-- The prefetched word is main memory's, and is not the word that a write in hand is to.
pub record IsCoherent (p : MemoryPort) (main : List ℕ) : Type 0 where
  pub word_held : (w : Prefetched) → p.prefetched ≡ some w → get_or main w.phys 0 ≡ w.word
  pub not_written : (w : Prefetched) → p.prefetched ≡ some w → p.write ≡ true → w.phys ≢ p.addr

pub unchanged-IsCoherent :
    (p q : MemoryPort) (main : List ℕ)
    → q.prefetched ≡ p.prefetched
    → q.write ≡ p.write
    → q.addr ≡ p.addr
    → IsCoherent p main
    → IsCoherent q main
unchanged-IsCoherent p q main f w a c = record {
  word_held = λ x e. c.word_held x (sym f ∙ e);
  not_written = λ x e y s. c.not_written x (sym f ∙ e) (sym w ∙ y) (s ∙ a);
}

pub none-IsCoherent : (q : MemoryPort) (main : List ℕ) → q.prefetched ≡ none → IsCoherent q main
none-IsCoherent q main e = record {
  word_held = λ x f. ground (arith, e, f);
  not_written = λ x f. ground (arith, e, f);
}

request_at-prefetched :
    (p : MemoryPort) (write : Bool) (phys : ℕ) (w : Prefetched)
    → (request_at p write phys).prefetched ≡ some w
    → (p.prefetched ≡ some w) × (write ≡ true → w.phys ≢ phys)
unfolding request_at
request_at-prefetched p write phys w e =
    ground (arith, e, Bool-cases write, Option-cases p.prefetched, Bool-cases (w.phys == phys))

request_at-fields :
    (p : MemoryPort) (write : Bool) (phys : ℕ)
    → ((request_at p write phys).write ≡ write) × ((request_at p write phys).addr ≡ phys)
unfolding request_at
request_at-fields p write phys = ground arith

pub request_at-IsCoherent :
    (p : MemoryPort) (main : List ℕ) (write : Bool) (phys : ℕ)
    → IsCoherent p main
    → IsCoherent (request_at p write phys) main
request_at-IsCoherent p main write phys c = record {
  word_held = λ w e. c.word_held w (request_at-prefetched p write phys w e).0;
  not_written = λ w e y s.
      (request_at-prefetched p write phys w e).1 (sym (request_at-fields p write phys).0 ∙ y)
        (s ∙ (request_at-fields p write phys).1);
}

pub mclk_edge-fields :
    (p : MemoryPort) (now : ℕ) (r : Responder)
    → let q = mclk_edge p now r in
      (q.prefetched ≡ p.prefetched) × (q.write ≡ p.write) × (q.addr ≡ p.addr)
unfolding mclk_edge memory_cycle fill_ns
mclk_edge-fields p now r = ground arith

read_answered-fields :
    (p : MemoryPort) (main : List ℕ)
    → ((read_answered p main).write ≡ p.write) × ((read_answered p main).addr ≡ p.addr)
unfolding read_answered
read_answered-fields p main = ground arith

read_answered-source :
    (p : MemoryPort) (main : List ℕ) (w : Prefetched)
    → (read_answered p main).prefetched ≡ some w
    → (p.prefetched ≡ some w) ⊎ ((p.write ≡ false) × (get_or main w.phys 0 ≡ w.word))
unfolding read_answered
read_answered-source p main w got = elim (Option-cases p.fetch_vaddr) [
  | inl none_marked ↦ ground (arith, none_marked, got)
  | inr (vaddr, marked) ↦ elim (Option-cases p.prefetch) [
    | inl unfit ↦ ground (arith, marked, unfit, got)
    | inr (reach, fit) ↦ ground (
      arith,
      marked,
      fit,
      got,
      Bool-cases p.memory,
      Bool-cases p.write,
      Bool-cases ((p.addr + 1) % p.layout.page_words == 0),
      Bool-cases (leb (length main) (p.addr + 1)),
      Bool-cases ((p.addr + 1) % p.cache.config.line_words == 0),
      Bool-cases (is_page reach),
      Bool-cases (holds p.cache (p.addr + 1)),
    )
  ]
]

pub read_answered-IsCoherent :
    (p : MemoryPort) (main : List ℕ) → IsCoherent p main → IsCoherent (read_answered p main) main
read_answered-IsCoherent p main c = record {
  word_held = λ w e. elim (read_answered-source p main w e) [
    | inl kept ↦ c.word_held w kept
    | inr (reads, taken) ↦ taken
  ];
  not_written = λ w e y s. elim (read_answered-source p main w e) [
    | inl kept ↦
        c.not_written w kept (sym (read_answered-fields p main).0 ∙ y)
          (s ∙ (read_answered-fields p main).1)
    | inr (reads, taken) ↦ ground (arith, reads, sym (read_answered-fields p main).0 ∙ y)
  ];
}

pub store-IsCoherent :
    (p : MemoryPort) (main : List ℕ) (v : ℕ)
    → p.write ≡ true
    → IsCoherent p main
    → IsCoherent p (set main p.addr v)
store-IsCoherent p main v w c = record {
  word_held = λ x e.
      get_or-set_ne main p.addr x.phys v 0 (λ s. c.not_written x e w (sym s)) ∙ c.word_held x e;
  not_written = c.not_written;
}

pub poll-IsCoherent :
    (p : MemoryPort) (main : List ℕ) (now : ℕ) (r : Responder)
    → IsCoherent p main
    → IsCoherent (poll p now r).1 main
unfolding poll
poll-IsCoherent p main now r c = unchanged-IsCoherent p (poll p now r).1 main refl refl refl c

pub invalidate_cache-prefetched : (p : MemoryPort) → (invalidate_cache p).prefetched ≡ none
unfolding invalidate_cache
invalidate_cache-prefetched p = refl
