-- ===== src/Sockets/Created.antt =====
-- CoAP_ESP8266_CreateInterfaceSocket and the search for a socket by its interface.
use mathlib.Core.Path.{subst}
use sming_coap.Base.{
  ℕ, zero, suc, ◌≡◌, refl, ap, arith, Bool, true, false, List, [], ◌∷◌, Option, none, some, ◌==◌,
  if◌then◌else◌, map, sym,
}
use sming_coap.Sockets.{
  NetSocket, NetSocketCtrl, first_free, init_sockets, alloc_socket, has_interface, find_socket,
  retrieve_socket2, change_socket, prepared, listening, open_socket, create_unless_used,
  create_interface_socket,
}

-- The socket at a place is not alive.
abbrev FreeAt : List NetSocket → ℕ → Type 0
FreeAt [] i = ⊥
FreeAt (q ∷ qs) zero = q.alive ≡ false
FreeAt (q ∷ qs) (suc i) = FreeAt qs i

abbrev Frees : List NetSocket → Option ℕ → Type 0
Frees qs none = Unit {0}
Frees qs (some i) = FreeAt qs i

Frees-behind :
    (q : NetSocket) (qs : List NetSocket) (o : Option ℕ)
    → Frees qs o
    → Frees (q ∷ qs) (elim o [ none ↦ none | some i ↦ some (suc i) ])
Frees-behind q qs none f = tt
Frees-behind q qs (some i) f = f

Frees-test :
    (q : NetSocket) (qs : List NetSocket) (o : Option ℕ) (b : Bool)
    → q.alive ≡ b
    → Frees qs o
    → Frees (q ∷ qs) (if b then elim o [ none ↦ none | some i ↦ some (suc i) ] else some 0)
Frees-test q qs o true e f = Frees-behind q qs o f
Frees-test q qs o false e f = e

first_free-Frees : (qs : List NetSocket) → Frees qs (first_free qs)
unfolding first_free
first_free-Frees [] = tt
first_free-Frees (q ∷ qs) = Frees-test q qs (first_free qs) q.alive refl (first_free-Frees qs)

-- A search that finds nothing found nothing behind either.
none_behind :
    (b : Bool) (o : Option ℕ)
    → (if b then some 0 else elim o [ none ↦ none | some i ↦ some (suc i) ]) ≡ none
    → (b ≡ false) × (o ≡ none)
none_behind true o e = cc
none_behind false none e = (refl, refl)
none_behind false (some i) e = cc

dead-interface : (id : ℕ) (q : NetSocket) → q.alive ≡ false → has_interface id q ≡ false
unfolding has_interface
dead-interface id q e = rw e refl

-- A place that was free and is not one of the interface does not change its search.
find_socket_same :
    (id : ℕ) (f : NetSocket → NetSocket) (qs : List NetSocket) (i : ℕ)
    → FreeAt qs i
    → ((q : NetSocket) → q.alive ≡ false → has_interface id (f q) ≡ false)
    → find_socket (has_interface id) (change_socket i f qs) ≡ find_socket (has_interface id) qs
find_socket_same id f [] i free d = elim free [ ]
find_socket_same id f (q ∷ qs) zero free d = rw (d q free, dead-interface id q free) refl
find_socket_same id f (q ∷ qs) (suc i) free d = rw (find_socket_same id f qs i free d) refl

-- A place that becomes the interface's only one is found.
find_socket_new :
    (id : ℕ) (f : NetSocket → NetSocket) (qs : List NetSocket) (i : ℕ)
    → FreeAt qs i
    → find_socket (has_interface id) qs ≡ none
    → ((q : NetSocket) → has_interface id (f q) ≡ true)
    → find_socket (has_interface id) (change_socket i f qs) ≡ some i
find_socket_new id f [] i free e d = elim free [ ]
find_socket_new id f (q ∷ qs) zero free e d = rw (d q) refl
find_socket_new id f (q ∷ qs) (suc i) free e d =
    let (here, behind) = none_behind (has_interface id q) (find_socket (has_interface id) qs) e in
    rw (here, find_socket_new id f qs i free behind d) refl

-- What a creation for an interface does to the searches for the interfaces.
abbrev pub Creates : ℕ → ℕ → NetSocketCtrl → Option ℕ × NetSocketCtrl → Type 0
Creates id other c (none, c') =
    (retrieve_socket2 c' id ≡ retrieve_socket2 c id)
    × (retrieve_socket2 c' other ≡ retrieve_socket2 c other)
Creates id other c (some i, c') =
    (retrieve_socket2 c id ≡ none)
    × (retrieve_socket2 c' id ≡ some i)
    × (retrieve_socket2 c' other ≡ retrieve_socket2 c other)

prepared-interface :
    (id port : ℕ) (q : NetSocket) → q.alive ≡ false → has_interface id (prepared port q) ≡ false
unfolding prepared has_interface
prepared-interface id port q e = rw e refl

module _ (id other : ℕ) (differ : (id == other) ≡ false) where
  open_socket-Creates :
      (created : Bool) (handle port callback send : ℕ) (c : NetSocketCtrl) (o : Option ℕ)
      → Frees c.sockets o
      → retrieve_socket2 c id ≡ none
      → Creates id other c (open_socket created id handle port callback send (o, c))
  unfolding open_socket retrieve_socket2 listening has_interface
  open_socket-Creates created handle port callback send c none free e = (refl, refl)
  open_socket-Creates true handle port callback send c (some i) free e = (
    e,
    find_socket_new id (listening id handle port callback send) c.sockets i free e
        (λ q. ground arith),
    find_socket_same other (listening id handle port callback send) c.sockets i free
        (λ q d. differ),
  )
  open_socket-Creates false handle port callback send c (some i) free e = (
    find_socket_same id (prepared port) c.sockets i free (prepared-interface id port),
    find_socket_same other (prepared port) c.sockets i free (prepared-interface other port),
  )

  alloc_socket_done :
      (c : NetSocketCtrl) → c.init_done ≡ true → alloc_socket c ≡ (first_free c.sockets, c)
  unfolding alloc_socket init_sockets
  alloc_socket_done c e =
      let same : init_sockets c ≡ c =
        subst
          (λ b.
            (if b then c else record {
              sockets = map (λ (q : NetSocket). record q { alive = false }) c.sockets;
              init_done = true;
            })
            ≡ c)
          (sym e) refl in
      ap (λ (x : NetSocketCtrl). (first_free x.sockets, x)) same

  unless_used-Creates :
      (created : Bool) (handle port : ℕ) (callback send : Option ℕ) (c : NetSocketCtrl)
      (used : Option ℕ)
      → c.init_done ≡ true
      → retrieve_socket2 c id ≡ used
      → Creates id other c (create_unless_used created id handle port callback send c used)
  unfolding create_unless_used
  unless_used-Creates created handle port callback send c (some i) z e = (refl, refl)
  unless_used-Creates created handle port none send c none z e = (refl, refl)
  unless_used-Creates created handle port (some f) none c none z e = (refl, refl)
  unless_used-Creates created handle port (some f) (some g) c none z e =
      rw (alloc_socket_done c z) (
        open_socket-Creates created handle port f g c (first_free c.sockets)
          (first_free-Frees c.sockets) e)

  -- In a table that was set up, the socket that a creation returns is from then on the one of its
  -- interface, which had none before, and the search for another interface finds what it found. A
  -- creation that fails, for whatever reason, changes no search.
  pub create_interface_socket-Creates :
      (created : Bool) (handle : Option ℕ) (port : ℕ) (callback send : Option ℕ) (c : NetSocketCtrl)
      → c.init_done ≡ true
      → Creates id other c (create_interface_socket created id handle port callback send c)
  unfolding create_interface_socket
  create_interface_socket-Creates created none port callback send c z = (refl, refl)
  create_interface_socket-Creates created (some h) port callback send c z =
      unless_used-Creates created h port callback send c (retrieve_socket2 c id) z refl
