-- ===== src/System/DataPipe/Ring.antt =====
-- The ring of a data pipe: the invariant that its operations keep, and what their loops do.
use native.Mathlib.Nat.{mod-add-mod}
use voodoo.Prelude.{
  ℕ, zero, suc, ◌+◌, ◌-◌, ◌%◌, ◌^◌, ◌≤◌, ◌<◌, ◌≡◌, refl, sym, ap, ◌∙◌, List, [], ◌∷◌, ◌++◌,
  append_assoc, append-nil, arith, length, get_or, set, length-set, length-replicate, add32,
  add32_lem, some, ◌==◌, if◌then◌else◌,
}
use voodoo.System.Types.{DataPipeState}
use voodoo.System.DataPipe.{store, fetch, create}
use voodoo.System.DataPipe.Window.{
  window, length-window, window-+, window-store, mod-step, mod_self,
}

-- The indices are in range, and `w` is `available` bytes behind `r`.
pub record IsRing (s : DataPipeState) : Type 0 where
  pub sized : length s.buf ≡ s.capacity
  pub element_pos : 0 < s.element_size
  pub word : s.capacity < 2 ^ 32
  pub r_in : s.r < s.capacity
  pub behind : s.w ≡ (s.r + s.available) % s.capacity
  pub fits : s.available ≤ s.capacity

-- The unread bytes, oldest first.
abbrev pub contents : DataPipeState → List ℕ
contents s = window s.capacity s.buf s.r s.available

pub length-contents : (s : DataPipeState) → length (contents s) ≡ s.available
length-contents s = length-window s.capacity s.buf s.r s.available

-- A data pipe whose options ask for a capacity below 2 ^ 32 is made with a sound ring and no unread
-- bytes.
pub create-IsRing :
    (e c : ℕ) → c < 2 ^ 32 → IsRing (create (some (e, c))) × (contents (create (some (e, c))) ≡ [])
unfolding create
create-IsRing e c h = (
  record {
    sized = length-replicate (if c == 0 then 65536 else c) 0;
    element_pos = ground arith;
    word = ground arith;
    r_in = ground arith;
    behind = ground arith;
    fits = ground arith;
  },
  refl,
)

-- What the loop of WhpWriteData leaves alone, and what it adds.
record Stored (s : DataPipeState) (n : ℕ) (src : List ℕ) (t : DataPipeState) : Type 0 where
  pub buf_sized : length t.buf ≡ s.capacity
  pub same : t ≡ record s { buf = t.buf; w = t.w }
  pub written : t.w ≡ (s.r + (n + length src)) % s.capacity
  pub joined : window s.capacity t.buf s.r (n + length src) ≡ window s.capacity s.buf s.r n ++ src

-- The state after one round of the loop.
abbrev stored_one : ℕ → DataPipeState → DataPipeState
stored_one x s = record s { buf = set s.buf s.w x; w = add32 s.w 1 % s.capacity }

module _ (x : ℕ) (xs : List ℕ) (s : DataPipeState) (n : ℕ) (l : length s.buf ≡ s.capacity)
    (c : s.capacity < 2 ^ 32) (p : s.r < s.capacity) (e : s.w ≡ (s.r + n) % s.capacity)
    (f : n + suc (length xs) ≤ s.capacity) where
  w-next : (stored_one x s).w ≡ (s.r + (n + 1)) % s.capacity
  w-next =
      ap (λ t. t % s.capacity) (add32_lem s.w 1 (omega arith))
      ∙ ap (λ t. (t + 1) % s.capacity) e
      ∙ rw mod-add-mod (ap (λ t. t % s.capacity) (omega arith))

  Stored-cons : (t : DataPipeState) → Stored (stored_one x s) (n + 1) xs t → Stored s n (x ∷ xs) t
  Stored-cons t ih = record {
    buf_sized = ih.buf_sized;
    same = ih.same;
    written = ih.written ∙ ap (λ k. (s.r + k) % s.capacity) (omega arith);
    joined =
        ap (window s.capacity t.buf s.r) {x = n + suc (length xs)} {y = n + 1 + length xs}
          (omega arith)
        ∙ ih.joined
        ∙ ap (λ b. b ++ xs)
            (ap (λ i. window s.capacity (set s.buf i x) s.r (n + 1)) e
              ∙ window-store s.capacity s.buf x s.r n l p (omega arith))
        ∙ append_assoc (window s.capacity s.buf s.r n) (x ∷ []) xs;
  }

store-Stored :
    (src : List ℕ) (s : DataPipeState) (n : ℕ)
    → length s.buf ≡ s.capacity
    → s.capacity < 2 ^ 32
    → s.r < s.capacity
    → s.w ≡ (s.r + n) % s.capacity
    → n + length src ≤ s.capacity
    → Stored s n src (store src s)
unfolding store
store-Stored [] s n l c p e f = record {
  buf_sized = l;
  same = refl;
  written = e ∙ ap (λ k. (s.r + k) % s.capacity) (omega arith);
  joined =
      ap (window s.capacity s.buf s.r) {x = n + 0} {y = n} (omega arith)
      ∙ sym (append-nil (window s.capacity s.buf s.r n));
}
store-Stored (x ∷ xs) s n l c p e f = Stored-cons x xs s n l c p e f (store xs (stored_one x s)) (
    store-Stored xs (stored_one x s) (n + 1) (length-set s.buf s.w x ∙ l) c p
      (w-next x xs s n l c p e f) (omega arith))

-- The state that a write of `src` leaves.
abbrev pub grown : DataPipeState → List ℕ → DataPipeState
grown s src = record s {
  buf = (store src s).buf;
  w = (store src s).w;
  available = s.available + length src;
}

-- Storing bytes for which there is room appends them to the unread ones.
pub store-IsRing :
    (src : List ℕ) (s : DataPipeState)
    → IsRing s
    → s.available + length src ≤ s.capacity
    → (store src s ≡ record s { buf = (store src s).buf; w = (store src s).w })
      × IsRing (grown s src)
      × (contents (grown s src) ≡ contents s ++ src)
store-IsRing src s v f =
    let st : Stored s s.available src (store src s) =
      store-Stored src s s.available v.sized v.word v.r_in v.behind f in
    (
      st.same,
      record {
        sized = st.buf_sized;
        element_pos = v.element_pos;
        word = v.word;
        r_in = v.r_in;
        behind = st.written;
        fits = f;
      },
      st.joined,
    )

-- The loop of WhpReadData takes a window of bytes and moves `r` past it.
pub fetch_lem :
    (n : ℕ) (s : DataPipeState)
    → s.r < s.capacity
    → s.capacity < 2 ^ 32
    → fetch n s ≡ (window s.capacity s.buf s.r n, record s { r = (s.r + n) % s.capacity })
unfolding fetch
fetch_lem zero s p c = ap (λ k. ([], record s { r = k })) (sym (mod_self s.capacity s.r p))
fetch_lem (suc n) s p c =
    ap (λ k. cons_first k (fetch n (record s { r = k }))) r-next
    ∙ ap (cons_first ((s.r + 1) % s.capacity))
        (fetch_lem n (record s { r = (s.r + 1) % s.capacity }) (omega arith) c)
    ∙ ap (λ k. (window s.capacity s.buf s.r (suc n), record s { r = k }))
        (mod-step s.capacity s.r n)
  where
    cons_first : ℕ → List ℕ × DataPipeState → List ℕ × DataPipeState
    cons_first k q = (get_or s.buf s.r 0 ∷ q.0, q.1)

    r-next : add32 s.r 1 % s.capacity ≡ (s.r + 1) % s.capacity
    r-next = ap (λ t. t % s.capacity) (add32_lem s.r 1 (omega arith))

-- The state that a read of `n` bytes leaves.
abbrev pub shrunk : DataPipeState → ℕ → DataPipeState
shrunk s n = record s { r = (s.r + n) % s.capacity; available = s.available - n }

-- It holds what stood behind those bytes.
pub shrunk-IsRing :
    (s : DataPipeState) (n : ℕ)
    → IsRing s
    → n ≤ s.available
    → IsRing (shrunk s n) × (contents s ≡ window s.capacity s.buf s.r n ++ contents (shrunk s n))
shrunk-IsRing s n v h = (
  record {
    sized = v.sized;
    element_pos = v.element_pos;
    word = v.word;
    r_in = omega arith;
    behind =
        v.behind
        ∙ ap (λ t. t % s.capacity) {x = s.r + s.available} {y = s.r + n + (s.available - n)}
            (omega arith)
        ∙ sym (mod-add-mod (s.r + n) s.capacity (s.available - n));
    fits = omega arith;
  },
  ap (window s.capacity s.buf s.r) {x = s.available} {y = n + (s.available - n)} (omega arith)
      ∙ window-+ s.capacity s.buf s.r n (s.available - n) v.r_in,
)
