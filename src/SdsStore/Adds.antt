-- ===== src/SdsStore/Adds.antt =====
-- Any number of calls of `sds_store_add` of src/server/sds_store.c, one after another.
use sample_sds_storage.Base.{
  ℕ, ◌<◌, ◌^◌, length, ◌≡◌, ◌≢◌, refl, ◌∙◌, Bool, none, List, [], ◌∷◌, arith, Run, ok, ◌>>=◌,
}
use sample_sds_storage.Slice.Stores.{Stores}
use sample_sds_storage.Vector.{vector_at}
use sample_sds_storage.Vector.Contents.{Holds}
use sample_sds_storage.Vector.Sequence.{vector_at-get_elem?}
use sample_sds_storage.Hash.Double.{Double}
use sample_sds_storage.LinkedList
use sample_sds_storage.LinkedList.{Ptr, Heap}
use sample_sds_storage.Bucketset.{Bucketset}
use sample_sds_storage.Conf.{Json}
use sample_sds_storage.SdsStore.{SdsStore, sds_store_add}
use sample_sds_storage.SdsStore.Add.{sds_store_add-forgets}

-- A set at an address, with what `calloc` returns for a list and for a node.
pub record Addition : Type 0 where
  pub list : Ptr
  pub node : Ptr
  pub address : Ptr
  pub set : Bucketset

-- There is memory, and the set is named by a text that is not empty and whose length is an `int`.
pub record IsLegal (a : Addition) : Type 0 where
  pub some_list : a.list ≢ LinkedList.null
  pub some_node : a.node ≢ LinkedList.null
  pub name : List ℕ
  pub named : Stores name a.set.set_name
  pub filled : name ≢ []
  pub short : length name < 2 ^ 31

abbrev pub AreLegal : List Addition → Type 0
AreLegal [] = Unit
AreLegal (a ∷ additions) = IsLegal a × AreLegal additions

module _ (json : Json) (calloc : ℕ → Bool) (d : Double) where
  abbrev pub add_all : List Addition → SdsStore json → Heap Ptr → Run (SdsStore json × Heap Ptr)
  add_all [] ss h = ok (ss, h)
  add_all (a ∷ additions) ss h = do
    (_, ss', h') ← sds_store_add json calloc d a.list a.node ss (a.address, a.set) h
    add_all additions ss' h'

  -- From a vector of sets that counts no element and has room for more than one, as after
  -- `sds_store_init`, any number of sets whose names are texts, not the empty one, of fewer than 2
  -- ^ 31 bytes, are added, with memory: each call returns, and behind them the vector still counts
  -- no element, so that `vector_at` sees none of the sets.
  pub add_all-forgets :
      (additions : List Addition) (ss : SdsStore json) (h : Heap Ptr)
      → Holds [] ss.sets
      → 1 < ss.sets.cap
      → AreLegal additions
      → (out : SdsStore json) × (g : Heap Ptr) × (add_all additions ss h ≡ ok (out, g))
        × Holds [] out.sets
        × (out.sets.cap ≡ ss.sets.cap)
        × ((i : ℕ) → vector_at out.sets i ≡ ok none)
  add_all-forgets [] ss h held roomy legal = (ss, h, refl, held, refl, vector_at-get_elem? held)
  add_all-forgets (a ∷ additions) ss h held roomy (now, later) =
      let (mid, h1, run, held1, cap, seen, _) =
        sds_store_add-forgets json calloc d a.list a.node a.address ss a.set h held roomy now.named
          now.filled now.short now.some_list now.some_node in
      let (out, g, runs, held2, cap2, none_seen) =
        add_all-forgets additions mid h1 held1 (omega arith) later in
      (out, g, rw (◌>>=◌, run) runs, held2, cap2 ∙ cap, none_seen)
