-- ===== src/LinkedList.antt =====
-- src/common/list.c: doubly linked lists on a heap of lists and nodes. Pointers are numbers and
-- NULL is 0; `fresh` is what `calloc` returns.
pub mod Chain
pub mod Append
pub mod NewNode
pub mod Nodes
pub mod Unlink
pub mod Remove
pub mod Closing
pub mod Rounds
pub mod Callback
pub mod Destroy
pub mod Calls
use sample_sds_storage.Base.{
  ◌≡◌, refl, ℕ, zero, suc, ◌+◌, ◌-◌, ◌%◌, ◌^◌, Bool, true, false, ◌&&◌, not, Option, none, some,
  List, [], ◌∷◌, ltb, ◌==◌, if◌then◌else◌, ℤ, success, failure, Run, ok, fault,
}

abbrev pub Ptr : Type 0
Ptr = ℕ

abbrev pub null : Ptr
null = 0

-- `value` is the pointer that the node carries.
pub record ListNode (A : Type 0) : Type 0 where
  pub next : Ptr
  pub prev : Ptr
  pub value : A

abbrev pub list_node : {A : Type 0} → Ptr → Ptr → A → ListNode A
list_node next prev value = record { next = next; prev = prev; value = value }

-- `has_cb` says whether `destroy_cb` is set.
pub record LinkedList : Type 0 where
  pub head : Ptr
  pub tail : Ptr
  pub size : ℕ
  pub has_cb : Bool

pub record Heap (A : Type 0) : Type 0 where
  pub lists : Ptr → Option LinkedList
  pub nodes : Ptr → Option (ListNode A)

abbrev pub Cmd : Type 0 → Type 0 → Type 0
Cmd A B = Heap A → Run (B × Heap A)

abbrev pub write : {B : Type 0} → (Ptr → Option B) → Ptr → Option B → Ptr → Option B
write f p v q = if p == q then v else f q

module _ {A : Type 0} where
  abbrev pub pure : {B : Type 0} → B → Cmd A B
  pure b h = ok (b, h)

  infixl 5 ◌>>=◌ ◌>>◌
  abbrev pub ◌>>=◌ : {B C : Type 0} → Cmd A B → (B → Cmd A C) → Cmd A C
  ◌>>=◌ m f h = elim (m h) [
    | Run.ok (b, h') ↦ f b h'
    | Run.fault ↦ Run.fault
    | Run.abort ↦ Run.abort
  ]

  abbrev pub ◌>>◌ : {C : Type 0} → Cmd A (Unit {0}) → Cmd A C → Cmd A C
  m >> k = m >>= λ _. k

  pub bind-ok :
      {B C : Type 0} (m : Cmd A B) (f : B → Cmd A C) (h : Heap A) {b : B} {h' : Heap A}
      → m h ≡ ok (b, h')
      → (m >>= f) h ≡ f b h'
  bind-ok m f h e = rw (◌>>=◌, e) refl

  unfoldable pub load_node : Ptr → Cmd A (ListNode A)
  load_node p h =
      if p == null then Run.fault else elim (h.nodes p) [ none ↦ Run.fault | some n ↦ ok (n, h) ]

  unfoldable pub store_node : Ptr → Option (ListNode A) → Cmd A (Unit {0})
  store_node p n h = ok (tt, record h { nodes = write h.nodes p n })

  unfoldable pub load_list : Ptr → Cmd A LinkedList
  load_list p h = elim (h.lists p) [ none ↦ Run.fault | some l ↦ ok (l, h) ]

  unfoldable pub store_list : Ptr → Option LinkedList → Cmd A (Unit {0})
  store_list p l h = ok (tt, record h { lists = write h.lists p l })

  -- `p->next = q` and `p->prev = q`
  unfoldable pub set_next : Ptr → Ptr → Cmd A (Unit {0})
  set_next p q = do n ← load_node p; store_node p (some (record n { next = q }))

  unfoldable pub set_prev : Ptr → Ptr → Cmd A (Unit {0})
  set_prev p q = do n ← load_node p; store_node p (some (record n { prev = q }))

  unfoldable pub list_node_create : Ptr → Option A → Cmd A Ptr
  list_node_create fresh none = pure null
  list_node_create fresh (some value) =
      if fresh == null
      then pure null
      else do store_node fresh (some (list_node null null value)); pure fresh

  -- A node that is freed twice is a fault.
  unfoldable pub list_node_destroy : Ptr → Cmd A (Unit {0})
  list_node_destroy p = if p == null then pure tt else do _ ← load_node p; store_node p none

  unfoldable pub list_create : Ptr → Cmd A Ptr
  list_create fresh = if fresh == null then pure null else do
    store_list fresh (some (record { head = null; tail = null; size = 0; has_cb = false }))
    pure fresh

  -- The two branches of `list_add`: the structure with its new ends.
  unfoldable pub link_last : LinkedList → Ptr → Cmd A LinkedList
  link_last l node =
      if l.size == 0
      then pure (record l { head = node; tail = node })
      else do set_next l.tail node; set_prev node l.tail; pure (record l { tail = node })

  unfoldable pub list_add : Ptr → Ptr → Cmd A ℤ
  list_add lt node = if lt == null then pure failure else do
    l ← load_list lt
    linked ← link_last l node
    store_list lt (some (record linked { size = (l.size + 1) % 2 ^ 64 }))
    pure success

  -- The two halves of `list_del`: the structure with its new ends.
  unfoldable pub unlink_prev : LinkedList → ListNode A → Cmd A LinkedList
  unlink_prev l node =
      if node.prev == null
      then pure (record l { head = node.next })
      else do set_next node.prev node.next; pure l

  unfoldable pub unlink_next : LinkedList → ListNode A → Cmd A LinkedList
  unlink_next l node =
      if node.next == null
      then pure (record l { tail = node.prev })
      else do set_prev node.next node.prev; pure l

  -- The function ends without a `return`. The node is read again behind the first half.
  unfoldable pub list_del : Ptr → Ptr → Cmd A (Unit {0})
  list_del lt node = if lt == null then pure tt else do
    l ← load_list lt
    if ltb 0 l.size
        then (do
          before ← load_node node
          l' ← unlink_prev l before
          after ← load_node node
          l'' ← unlink_next l' after
          list_node_destroy node
          store_list lt (some (record l'' { size = (l.size + (2 ^ 64 - 1)) % 2 ^ 64 })))
        else pure tt

  -- `destroy_cb(value)`: a call through NULL is a fault; what it is called on is recorded.
  unfoldable pub call_cb : Bool → A → List A → Cmd A (List A)
  call_cb false value calls h = Run.fault
  call_cb true value calls h = ok (value ∷ calls, h)

  -- The loop of `list_destroy`, which closes in on the list from both ends. `calls` are the
  -- values handed to the callback, latest first; `none` means that the fuel ran out.
  unfoldable pub destroy_loop :
      ℕ → Bool → Ptr → Ptr → ℕ → List A → Cmd A (Option (Ptr × ℕ × List A))
  destroy_loop zero cb head tail size calls = pure none
  destroy_loop (suc fuel) cb head tail size calls =
      let round : Cmd A (Option (Ptr × ℕ × List A)) = (do
        first ← load_node head
        last ← load_node tail
        calls' ← call_cb cb first.value calls
        calls'' ← call_cb cb last.value calls'
        list_node_destroy head
        list_node_destroy tail
        destroy_loop fuel cb first.next last.prev ((size + (2 ^ 64 - 1)) % 2 ^ 64) calls'') in
      if head == tail then pure (some (head, size, calls)) else round

  unfoldable pub list_destroy : ℕ → Ptr → Cmd A (Option (List A))
  list_destroy fuel lt = if lt == null then pure (some []) else do
    l ← load_list lt
    if ltb 0 l.size
        then (do
          calls ←
              (if l.head == null then pure (some []) else do
                ended ← destroy_loop fuel l.has_cb l.head l.tail 0 []
                elim ended [
                  | none ↦ pure none
                  | some (head, size, calls) ↦
                      if ltb 0 size
                      then (do
                        n ← load_node head
                        calls' ← call_cb l.has_cb n.value calls
                        list_node_destroy head
                        pure (some calls'))
                      else pure (some calls)
                ])
          store_list lt none
          pure calls)
        else pure (some [])
