-- ===== src/Heap.antt =====
-- The allocator behind coap_mem_get, coap_mem_get0 and coap_mem_release of
-- coap/server/lobaro-coap/coap_mem.c. Its algorithm (BGET) is another project's and is taken as a
-- parameter: an arbitrary verdict for each request. What the stack can observe of it is whether a
-- request is met, and what it can get wrong is the number of blocks that it still holds.
use sming_coap.Base.{ℕ, suc, ◌-◌, ◌≡◌, Bool, true, false, if◌then◌else◌}

-- `verdict k n` says whether the k-th request, for n bytes, is met.
pub record Heap : Type 0 where
  pub verdict : ℕ → ℕ → Bool
  pub requests : ℕ
  pub live : ℕ

-- `coap_mem_get(size)`: false stands for the NULL pointer.
unfoldable pub mem_get : ℕ → Heap → Bool × Heap
mem_get size h =
    if h.verdict h.requests size
    then (true, record h { requests = suc h.requests; live = suc h.live })
    else (false, record h { requests = suc h.requests })

-- `coap_mem_release(ptr)` on one block.
unfoldable pub mem_release : Heap → Heap
mem_release h = record h { live = h.live - 1 }

-- Every request is met.
abbrev pub Generous : Heap → Type 0
Generous h = (k n : ℕ) → h.verdict k n ≡ true

-- The heap of the tests: it meets every request.
abbrev pub fresh_heap : Heap
fresh_heap = record { verdict = λ _ _. true; requests = 0; live = 0 }
