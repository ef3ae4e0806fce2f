-- ===== src/Options/Loop.antt =====
-- The rounds of the loop of parse_OptionsFromRaw, one by one.
use sming_coap.Base.{ℕ, suc, ◌<◌, ◌≤◌, ◌≡◌, refl, none, some, List, ◌⊎◌, inl, inr, Memory, arith}
use sming_coap.Heap.{Heap}
use sming_coap.CoapResult.{ok}
use sming_coap.Options.{CoapOption}
use sming_coap.Options.Parse.{Parsed, Round, return, continue, parse_round, parse_loop}

pub Round-cases :
    (r : Round)
    → ((p : Parsed) × (r ≡ return p))
      ⊎ ((o : ℕ) × (k : ℕ) × (os : List CoapOption) × (h : Heap) × (r ≡ continue o k os h))
Round-cases (return p) = inl (p, refl)
Round-cases (continue o k os h) = inr (o, k, os, h, refl)

module _ (fuel : ℕ) (mem : Memory) (n offset last : ℕ) (opts : List CoapOption) (h : Heap) where
  pub parse_loop_done :
      n ≤ offset
      → parse_loop (suc fuel) mem n offset last opts h
        ≡ some (record { result = ok; payload_begin = none; options = opts; heap = h })
  unfolding parse_loop
  parse_loop_done past = ground arith

  pub parse_loop_return :
      {p : Parsed}
      → offset < n
      → parse_round mem n offset last opts h ≡ return p
      → parse_loop (suc fuel) mem n offset last opts h ≡ some p
  unfolding parse_loop
  parse_loop_return below e = ground arith

  pub parse_loop_continue :
      {o l : ℕ} {os : List CoapOption} {h' : Heap}
      → offset < n
      → parse_round mem n offset last opts h ≡ continue o l os h'
      → parse_loop (suc fuel) mem n offset last opts h ≡ parse_loop fuel mem n o l os h'
  unfolding parse_loop
  parse_loop_continue below e = ground arith
