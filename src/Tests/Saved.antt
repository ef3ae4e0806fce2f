-- ===== src/Tests/Saved.antt =====
-- The saved observers at a concrete input.
use sming_coap.Options.Pack.{
  pack_options_from_list, pack_options, pack_option, field_nibble, field_bytes,
}
use sming_coap.Base.{
  ◌+◌, ◌*◌, ◌/◌, ◌%◌, ◌≡◌, refl, arith, [], ◌∷◌, ◌++◌, some, get_or, of_list, of_list-Holds, read,
}
use sming_coap.Heap.{Heap, fresh_heap}
use sming_coap.Resource.{Resource, Observer}
use sming_coap.Resource.Saved.{Layout, Saving, nv_save_observers, nv_load_observers}
use sming_coap.Resource.Saved.Items.{saved}
use sming_coap.Resource.Saved.Rounds.{observed_by, written}
use sming_coap.Resource.Saved.Restored.{nv_load_observers-nv_save_observers}
use sming_coap.Tests.OptionTypes.{gateway}
use sming_coap.Tests.Interactions.{echo}

-- The address at place 4, the port at place 20 with its low byte first; the address is read as the
-- gateway's.
abbrev little_endian : Layout
little_endian = record {
  ep_bytes =
      λ e. (0 ∷ 0 ∷ 0 ∷ 0 ∷ read e.address 0 16) ++ (e.port % 256 ∷ e.port / 256 ∷ 0 ∷ 0 ∷ []);
  ep_of = λ bs. record gateway { port = get_or bs 20 0 + 256 * get_or bs 21 0 };
  token_bytes = λ t. t ∷ 0 ∷ 0 ∷ 0 ∷ 0 ∷ 0 ∷ 0 ∷ 0 ∷ [];
  token_of = λ bs. get_or bs 0 0;
}

-- An observer that asked with an observe option and a query.
abbrev watcher : Observer
watcher = record {
  ep = gateway;
  if_id = 1;
  token = 77;
  opt_list = record { number = 6; value = [] } ∷ record { number = 15; value = 97 ∷ [] } ∷ [];
}

abbrev other : Resource
other = record echo { uri = record { number = 11; value = 98 ∷ [] } ∷ [] }

nv_load_observers-nv_save_observers_example :
    (s : Saving) × (h : Heap) × (nv_save_observers little_endian
        (other ∷ (observed_by (watcher ∷ []) echo ∷ []))
        (λ i. 0)
        fresh_heap
      ≡ some (written (saved little_endian echo watcher), s))
    × (nv_load_observers little_endian 2
          (some (of_list (written (saved little_endian echo watcher) ++ (0xff ∷ []))))
          (other ∷ (observed_by [] echo ∷ []))
          fresh_heap
        ≡ some (other ∷ (observed_by (watcher ∷ []) echo ∷ []), h))
nv_load_observers-nv_save_observers_example =
    nv_load_observers-nv_save_observers little_endian (other ∷ []) [] echo watcher (λ i. 0)
      (of_list (written (saved little_endian echo watcher) ++ (0xff ∷ []))) fresh_heap fresh_heap 0
      (record {
        path_only = (refl, tt);
        path_valid = (record { number_bound = omega arith; value_bound = omega arith }, tt);
      })
      (record {
        ep_size = refl;
        ep_back = refl;
        token_size = refl;
        token_back = refl;
        own_options = (refl, (refl, tt));
        own_sorted = (omega arith, (omega arith, tt));
        own_valid = (
          record { number_bound = omega arith; value_bound = omega arith },
          (record { number_bound = omega arith; value_bound = omega arith }, tt),
        );
      })
      (refl, tt) tt ((λ e. ground (arith, e)), tt)
      (unfold pack_options_from_list pack_options pack_option field_nibble field_bytes in
        omega arith)
      (of_list-Holds (written (saved little_endian echo watcher) ++ (0xff ∷ []))) (λ k n. refl)
      (λ k n. refl)
