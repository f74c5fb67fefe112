-- ===== src/Fifo/Sequence.antt =====
-- src/fifo.c: any sequence of fifo_put, fifo_get, fifo_flush and fifo_length against the bounded queue.
use slate.Base.{ℕ, ◌≡◌, refl, sym, ap, ◌∙◌, suc, Option, none, List, [], ◌∷◌, length}
use mathlib.Core.Path.{ap₂}
use slate.Fifo.{Fifo, Status, success, fifo_length, put, get, flush}
use slate.Fifo.Queue
use slate.Fifo.Queue.{Queue}
use slate.Fifo.Inv.{
  IsValid, fifo_length-valid, put-IsValid, get-IsValid, flush-IsValid, buff_size-put, buff_size-get,
}
use slate.Fifo.Refine.{contents, capacity, put_refines, get_refines, length-contents}

pub data Op : Type 0 where
  puts : ℕ → Op
  gets flushes measures : Op

-- What a call gives its caller: a status and perhaps a byte, or a length.
pub data Answer : Type 0 where
  answer : Status → Option ℕ → Answer
  measured : ℕ → Answer

-- `stray` is what a read just past the end of the buffer gives.
module _ (stray : ℕ) where
  abbrev pub call : Op → Fifo → Answer × Fifo
  call (puts x) p = let (s, q) = put p x in (answer s none, q)
  call gets p = let (s, x, q) = get stray p in (answer s x, q)
  call flushes p = let (s, q) = flush p in (answer s none, q)
  call measures p = (measured (fifo_length p), p)

  unfoldable pub calls : List Op → Fifo → List Answer × Fifo
  calls [] p = ([], p)
  calls (o ∷ os) p = let (a, q) = call o p in let (as', r) = calls os q in (a ∷ as', r)

-- The same on the queue of at most `n` bytes.
abbrev pub queue_call : ℕ → Op → Queue → Answer × Queue
queue_call n (puts x) q = let (s, q') = Queue.put n q x in (answer s none, q')
queue_call n gets q = let (s, x, q') = Queue.get q in (answer s x, q')
queue_call n flushes q = (answer success none, [])
queue_call n measures q = (measured (length q), q)

unfoldable pub queue_calls : ℕ → List Op → Queue → List Answer × Queue
queue_calls n [] q = ([], q)
queue_calls n (o ∷ os) q =
    let (a, q') = queue_call n o q in let (as', r) = queue_calls n os q' in (a ∷ as', r)

module _ (stray : ℕ) where
  -- One call.
  record Simulates (n : ℕ) (concrete : Answer × Fifo) (abstracted : Answer × Queue) : Type 0 where
    valid : IsValid concrete.1
    room : capacity concrete.1 ≡ n
    same : (concrete.0, contents concrete.1) ≡ abstracted

  call-Simulates :
      (o : Op) (p : Fifo)
      → IsValid p
      → Simulates (capacity p) (call stray o p) (queue_call (capacity p) o (contents p))
  unfolding flush
  call-Simulates (puts x) p v = record {
    valid = put-IsValid p x v;
    room = ap suc (buff_size-put p x);
    same = ap (λ (t : Status × Queue). (answer t.0 none, t.1)) (put_refines p x v);
  }
  call-Simulates gets p v = record {
    valid = get-IsValid stray p v;
    room = ap suc (buff_size-get stray p);
    same = ap (λ (t : Status × Option ℕ × Queue). (answer t.0 t.1, t.2)) (get_refines stray p v);
  }
  call-Simulates flushes p v = record { valid = flush-IsValid p v; room = refl; same = refl }
  call-Simulates measures p v = record {
    valid = v;
    room = refl;
    same = ap (λ n. (measured n, contents p)) (fifo_length-valid p v ∙ sym (length-contents p v));
  }

  -- From a valid FIFO on, any sequence of fifo_put, fifo_get, fifo_flush and fifo_length gives its
  -- callers the same answers as the queue of its contents with room for `buff_size + 1` bytes, and
  -- leaves a valid FIFO with the contents of that queue.
  pub calls_refine :
      (os : List Op) (p : Fifo)
      → IsValid p
      → ((calls stray os p).0 ≡ (queue_calls (capacity p) os (contents p)).0)
        × (contents (calls stray os p).1 ≡ (queue_calls (capacity p) os (contents p)).1)
        × IsValid (calls stray os p).1
  unfolding calls queue_calls
  calls_refine [] p v = (refl, refl, v)
  calls_refine (o ∷ os) p v =
      let q = (call stray o p).1 in
      let s = call-Simulates o p v in
      let (answers, left, valid) = calls_refine os q s.valid in
      let cap = s.room in
      let same = s.same in
      (
        ap₂ (λ a l. a ∷ l) (ap (λ t. t.0) same)
            (answers ∙ ap₂ (λ n c. (queue_calls n os c).0) cap (ap (λ t. t.1) same)),
        left ∙ ap₂ (λ n c. (queue_calls n os c).1) cap (ap (λ t. t.1) same),
        valid,
      )
