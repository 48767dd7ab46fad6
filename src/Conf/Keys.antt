-- ===== src/Conf/Keys.antt =====
-- The keys of src/server/conf.c: one index of theirs is past the end.
use sample_sds_storage.Base.{
  ℕ, ◌≡◌, ◌≢◌, refl, inl, inr, Bool, Option, none, some, List, Bool-cases, Option-cases, Run, ok,
  fault, abort, ◌>>=◌, load,
}
use sample_sds_storage.Slice.{slice_init}
use sample_sds_storage.Conf.{
  Json, conf_addr, conf_port, conf_backlog, conf_data_dir, conf_data_length, Conf, get_key,
  conf_create, zeroed_slice,
}

-- A step that never returns makes what it stands in never return.
bind-never :
    {A B : Type 0} (m : Run A) (f : A → Run B) (b : B) → ((a : A) → f a ≢ ok b) → (m >>= f) ≢ ok b
bind-never (ok a) f b never e = never a e
bind-never fault f b never e = cc
bind-never abort f b never e = cc

-- The last key is past the end of the array.
last_key : (json : Json) (root : json.Value) → get_key json root conf_data_length ≡ fault
unfolding get_key load
last_key json root = refl

bind-fault : {A B : Type 0} (m : Run A) (f : A → Run B) (b : B) → m ≡ fault → (m >>= f) ≢ ok b
bind-fault m f b e run = cc (rw e at run)

-- Whatever the file holds, `conf_create` never returns a configuration: it returns NULL, or it is
-- undefined, since the last key is read past the end of the array.
pub conf_create-never :
    (json : Json) (calloc : ℕ → Bool) (read : Option (List ℕ)) (r : Option (Conf json))
    → conf_create json calloc read ≡ ok r
    → r ≡ none
unfolding conf_create
conf_create-never json calloc none r e = cc
conf_create-never json calloc (some buf) none e = refl
conf_create-never json calloc (some buf) (some cf) e = elim (Bool-cases (calloc 1)) [
  | inr full ↦ cc (rw full at e)
  | inl room ↦ elim (Option-cases (json.loads buf)) [
    | inl broken ↦ cc (rw (room, broken) at e)
    | inr (root, parsed) ↦
        let init = λ (v : Option json.Value).
          slice_init calloc (some (zeroed_slice json)) (json.string_value v) in
        absurd (
          bind-never (get_key json root conf_port) _ (some cf)
            (λ port. bind-never (get_key json root conf_addr) _ (some cf) (λ addr.
              bind-never (init addr) _ (some cf) (λ named.
                bind-never (get_key json root conf_backlog) _ (some cf) (λ backlog.
                  bind-never (get_key json root conf_data_dir) _ (some cf) (λ dir.
                    bind-never (init dir) _ (some cf) (λ stored.
                      bind-fault (get_key json root conf_data_length) _ (some cf)
                        (last_key json root)))))))
            (rw (room, parsed) at e))
  ]
]
