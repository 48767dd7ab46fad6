-- ===== src/Server/Stops.antt =====
-- The server of src/server/main.c does not come up.
use sample_sds_storage.Base.{
  ℕ, ◌≡◌, refl, ap, ◌∙◌, failure, Bool, true, false, ◌⊎◌, inl, inr, Option, none, some, List, Run,
  ok, fault, abort, ◌>>=◌,
}
use sample_sds_storage.Vector.{Vector}
use sample_sds_storage.LinkedList.{Ptr}
use sample_sds_storage.Conf.{Json, conf_create}
use sample_sds_storage.Conf.Keys.{conf_create-never}
use sample_sds_storage.SdsStore.{SdsStore, sds_store_init}
use sample_sds_storage.Netsocket.Setup.{Netsocket, Sockets, Watch}
use sample_sds_storage.Server.{fresh_store, server_start, server_main}

-- A run that ends in undefined behaviour, or at an assertion.
abbrev pub Stops {ℓ} : {A : Type ℓ} → Run A → Type ℓ
Stops r = (r ≡ fault) ⊎ (r ≡ abort)

Stops-bind {ℓ} : {A B : Type ℓ} (r : Run A) (f : A → Run B) → Stops r → Stops (r >>= f)
Stops-bind r f (inl e) = inl (ap (λ s. s >>= f) e)
Stops-bind r f (inr e) = inr (ap (λ s. s >>= f) e)

Run-cases {ℓ} : {A : Type ℓ} (r : Run A) → ((a : A) × (r ≡ ok a)) ⊎ Stops r
Run-cases (ok a) = inl (a, refl)
Run-cases fault = inr (inl refl)
Run-cases abort = inr (inr refl)

-- What a configuration that was read can be.
created-cases :
    (json : Json) (calloc : ℕ → Bool) (read : Option (List ℕ))
    → (conf_create json calloc read ≡ ok none) ⊎ Stops (conf_create json calloc read)
created-cases json calloc read = elim (Run-cases (conf_create json calloc read)) [
  | inl (made, e) ↦ inl (e ∙ ap ok (conf_create-never json calloc read made e))
  | inr stops ↦ inr stops
]

sds_store_init-Stops :
    (json : Json) (calloc : ℕ → Bool) (sets : Vector Ptr) (read : Option (List ℕ))
    → Stops (sds_store_init json calloc (some (fresh_store json sets)) true read)
unfolding sds_store_init
sds_store_init-Stops json calloc sets read = elim (created-cases json calloc read) [
  | inl null ↦ inr (rw null refl)
  | inr stops ↦ Stops-bind (conf_create json calloc read) _ stops
]

no_path :
    (json : Json) (calloc : ℕ → Bool) (sets : Vector Ptr) (read : Option (List ℕ))
    → sds_store_init json calloc (some (fresh_store json sets)) false read
      ≡ ok (failure, some (fresh_store json sets))
unfolding sds_store_init
no_path json calloc sets read = refl

server_start-Stops :
    (json : Json) (calloc strdup : ℕ → Bool) (so : Sockets)
    (ev_run : List Watch → Option (SdsStore json) → Run (Option (SdsStore json))) (path : Bool)
    (read : Option (List ℕ)) (sets : Vector Ptr)
    → Stops (server_start json calloc strdup so ev_run path read sets)
unfolding server_start
server_start-Stops json calloc strdup so ev_run true read sets =
    Stops-bind (sds_store_init json calloc (some (fresh_store json sets)) true read) _
      (sds_store_init-Stops json calloc sets read)
server_start-Stops json calloc strdup so ev_run false read sets =
    inl (rw (no_path json calloc sets read, ◌>>=◌) refl)

-- Whatever the configuration file holds, and without one: what the main program of the server does
-- before it calls `netsocket_init`, which makes its socket, ends in undefined behaviour or at an
-- assertion, and so the main program does.
pub server_main-Stops :
    (json : Json) (calloc strdup : ℕ → Bool) (so : Sockets)
    (ev_run : List Watch → Option (SdsStore json) → Run (Option (SdsStore json))) (path : Bool)
    (read : Option (List ℕ)) (sets : Vector Ptr) (net : Netsocket (SdsStore json))
    → Stops (server_start json calloc strdup so ev_run path read sets)
      × Stops (server_main json calloc strdup so ev_run path read sets net)
unfolding server_main
server_main-Stops json calloc strdup so ev_run path read sets net =
    let stops = server_start-Stops json calloc strdup so ev_run path read sets in
    (stops, Stops-bind (server_start json calloc strdup so ev_run path read sets) _ stops)
