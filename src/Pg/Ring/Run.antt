-- ===== src/Pg/Ring/Run.antt =====
-- Whole sequences of calls on a ring, against the same calls on the queue of its contents.
use c_fs_subscriber.Base.{
  length, ℕ, ◌^◌, ◌<◌, ◌≡◌, refl, sym, ap, ◌∙◌, subst, Option, none, some, List, [], ◌∷◌, arith,
}
use c_fs_subscriber.Pg.Ring.{
  Ring, push_back, push_front, pop_back, pop_front, consume_front, consume_back, push_backv, get,
  front, back, clear, space,
}
use c_fs_subscriber.Pg.Ring.Abstract
use c_fs_subscriber.Pg.Ring.Bulk.{push_backv_refines, push_backv-Keeps}
use c_fs_subscriber.Pg.Ring.Deque.{
  contents, view, view_second, push_back_refines, push_front_refines, pop_back_refines,
  pop_front_refines, consume_front_refines, consume_back_refines, get_refines, front_refines,
  back_refines, clear_refines, space_refines, length-contents,
}
use c_fs_subscriber.Pg.Ring.Valid.{
  IsValid, Keeps, KeepsSecond, push_back-Keeps, push_front-Keeps, pop_back-KeepsSecond,
  pop_front-KeepsSecond, consume_front-Keeps, consume_back-Keeps, clear-IsValid,
}

-- A call of the ring. It returns a number, or nothing.
pub data Call : Type 0 where
  to_back to_front : ℕ → Call
  from_back from_front : Call
  skip_front skip_back : ℕ → Call
  all_to_back : List ℕ → Call
  at_index : ℕ → Call
  at_front at_back empty_out room : Call

abbrev quiet {ℓ} : {A : Type ℓ} → Option A → Option (Option ℕ × A)
quiet none = none
quiet (some a) = some (none, a)

abbrev loud {ℓ} : {A : Type ℓ} → Option (ℕ × A) → Option (Option ℕ × A)
loud none = none
loud (some (x, a)) = some (some x, a)

-- A call that only reads.
abbrev reads {ℓ} : {A : Type ℓ} → Option ℕ → A → Option (Option ℕ × A)
reads none a = none
reads (some x) a = some (some x, a)

pub call : Ring → Call → Option (Option ℕ × Ring)
call r (to_back x) = quiet (push_back r x)
call r (to_front x) = quiet (push_front r x)
call r from_back = loud (pop_back r)
call r from_front = loud (pop_front r)
call r (skip_front n) = quiet (consume_front r n)
call r (skip_back n) = quiet (consume_back r n)
call r (all_to_back xs) = quiet (push_backv r xs)
call r (at_index i) = reads (get r i) r
call r at_front = reads (front r) r
call r at_back = reads (back r) r
call r empty_out = some (none, clear r)
call r room = some (some (space r), r)

unfoldable pub deque_call : ℕ → List ℕ → Call → Option (Option ℕ × List ℕ)
deque_call m q (to_back x) = quiet (Abstract.push_back m q x)
deque_call m q (to_front x) = quiet (Abstract.push_front m q x)
deque_call m q from_back = loud (Abstract.pop_back q)
deque_call m q from_front = loud (Abstract.pop_front q)
deque_call m q (skip_front n) = quiet (Abstract.consume_front q n)
deque_call m q (skip_back n) = quiet (Abstract.consume_back q n)
deque_call m q (all_to_back xs) = quiet (Abstract.push_backv m q xs)
deque_call m q (at_index i) = reads (Abstract.get q i) q
deque_call m q at_front = reads (Abstract.front q) q
deque_call m q at_back = reads (Abstract.back q) q
deque_call m q empty_out = some (none, [])
deque_call m q room = some (some (Abstract.space m q), q)

-- The numbers returned so far, and the final contents, or `none` where a call stopped the program.
abbrev Trace : Type 0
Trace = List (Option ℕ) × Option (List ℕ)

-- One call, and the calls behind it if it did not stop the program.
abbrev chain {ℓ} : {A : Type ℓ} → Option (Option ℕ × A) → (A → Trace) → Trace
chain none later = ([], none)
chain (some (x, a)) later = (x ∷ (later a).0, (later a).1)

pub run : Ring → List Call → Trace
run r [] = ([], some (contents r))
run r (c ∷ cs) = chain (call r c) (λ r'. run r' cs)

pub deque_run : ℕ → List ℕ → List Call → Trace
deque_run m q [] = ([], some q)
deque_run m q (c ∷ cs) = chain (deque_call m q c) (λ q'. deque_run m q' cs)

-- A source of bytes lies in memory, and what is only read is there: the ring does not check that.
abbrev pub Allows : List ℕ → Call → Type 0
Allows q (all_to_back xs) = length xs < 2 ^ 63
Allows q (at_index i) = i < length q
Allows q at_front = 0 < length q
Allows q at_back = 0 < length q
Allows q _ = Unit

abbrev pub Afterwards : Option (Option ℕ × List ℕ) → (List ℕ → Type 0) → Type 0
Afterwards none later = Unit
Afterwards (some (x, q)) later = later q

-- Each call is allowed by the queue that the calls before it leave.
abbrev pub AllowsAll : ℕ → List ℕ → List Call → Type 0
AllowsAll m q [] = Unit
AllowsAll m q (c ∷ cs) = Allows q c × Afterwards (deque_call m q c) (λ q'. AllowsAll m q' cs)

abbrev seen : Option (Option ℕ × Ring) → Option (Option ℕ × List ℕ)
seen none = none
seen (some (x, r)) = some (x, contents r)

abbrev CallKeeps : ℕ → Option (Option ℕ × Ring) → Type 0
CallKeeps m none = Unit {0}
CallKeeps m (some (x, r)) = IsValid r × (r.cap ≡ m)

seen-quiet : (o : Option Ring) → seen (quiet o) ≡ quiet (view o)
seen-quiet none = refl
seen-quiet (some r) = refl

seen-loud : (o : Option (ℕ × Ring)) → seen (loud o) ≡ loud (view_second o)
seen-loud none = refl
seen-loud (some (x, r)) = refl

quiet-CallKeeps : (m : ℕ) (o : Option Ring) → Keeps m o → CallKeeps m (quiet o)
quiet-CallKeeps m none k = tt
quiet-CallKeeps m (some r) k = k

loud-CallKeeps : (m : ℕ) (o : Option (ℕ × Ring)) → KeepsSecond m o → CallKeeps m (loud o)
loud-CallKeeps m none k = tt
loud-CallKeeps m (some (x, r)) k = k

seen-reads : (r : Ring) (o : Option ℕ) → seen (reads o r) ≡ reads o (contents r)
seen-reads r none = refl
seen-reads r (some x) = refl

reads-CallKeeps : {r : Ring} (o : Option ℕ) → IsValid r → CallKeeps r.cap (reads o r)
reads-CallKeeps none v = tt
reads-CallKeeps (some x) v = (v, refl)

module _ {r : Ring} (v : IsValid r) where
  call_refines :
      (c : Call) → Allows (contents r) c → seen (call r c) ≡ deque_call r.cap (contents r) c
  unfolding call deque_call Abstract.get contents
  call_refines (to_back x) m = seen-quiet (push_back r x) ∙ ap quiet (push_back_refines x v)
  call_refines (to_front x) m = seen-quiet (push_front r x) ∙ ap quiet (push_front_refines x v)
  call_refines from_back m = seen-loud (pop_back r) ∙ ap loud (pop_back_refines v)
  call_refines from_front m = seen-loud (pop_front r) ∙ ap loud (pop_front_refines v)
  call_refines (skip_front n) m =
      seen-quiet (consume_front r n) ∙ ap quiet (consume_front_refines n v)
  call_refines (skip_back n) m = seen-quiet (consume_back r n) ∙ ap quiet (consume_back_refines n v)
  call_refines (all_to_back xs) m =
      seen-quiet (push_backv r xs) ∙ ap quiet (push_backv_refines xs v (omega arith))
  call_refines (at_index i) m =
      seen-reads r (get r i)
      ∙ ap (λ o. reads o (contents r)) (get_refines i v (omega (arith, length-contents r)))
  call_refines at_front m =
      seen-reads r (front r) ∙ ap (λ o. reads o (contents r)) (front_refines v m)
  call_refines at_back m = seen-reads r (back r) ∙ ap (λ o. reads o (contents r)) (back_refines v m)
  call_refines empty_out m = ap (λ q. some (none, q)) (clear_refines r)
  call_refines room m = ap (λ n. some (some n, contents r)) (space_refines v)

  call-CallKeeps : (c : Call) → Allows (contents r) c → CallKeeps r.cap (call r c)
  unfolding call
  call-CallKeeps (to_back x) m = quiet-CallKeeps _ (push_back r x) (push_back-Keeps x v)
  call-CallKeeps (to_front x) m = quiet-CallKeeps _ (push_front r x) (push_front-Keeps x v)
  call-CallKeeps from_back m = loud-CallKeeps _ (pop_back r) (pop_back-KeepsSecond v)
  call-CallKeeps from_front m = loud-CallKeeps _ (pop_front r) (pop_front-KeepsSecond v)
  call-CallKeeps (skip_front n) m = quiet-CallKeeps _ (consume_front r n) (consume_front-Keeps n v)
  call-CallKeeps (skip_back n) m = quiet-CallKeeps _ (consume_back r n) (consume_back-Keeps n v)
  call-CallKeeps (all_to_back xs) m =
      quiet-CallKeeps _ (push_backv r xs) (push_backv-Keeps xs v (omega arith))
  call-CallKeeps (at_index i) m = reads-CallKeeps (get r i) v
  call-CallKeeps at_front m = reads-CallKeeps (front r) v
  call-CallKeeps at_back m = reads-CallKeeps (back r) v
  call-CallKeeps empty_out m = (clear-IsValid v, unfold clear in refl)
  call-CallKeeps room m = (v, refl)

chain-seen :
    (m : ℕ) (o : Option (Option ℕ × Ring)) (f : Ring → Trace) (g : List ℕ → Trace)
    (A : List ℕ → Type 0)
    → CallKeeps m o
    → Afterwards (seen o) A
    → ((r : Ring) → IsValid r → r.cap ≡ m → A (contents r) → f r ≡ g (contents r))
    → chain o f ≡ chain (seen o) g
chain-seen m none f g A k a h = refl
chain-seen m (some (x, r)) f g A k a h = ap (λ t. (x ∷ t.0, t.1)) (h r k.0 k.1 a)

-- On a valid ring, a sequence of calls that push, take, skip or read bytes, empty the ring, or ask for its
-- room, does the same as on the bounded double-ended queue of its contents: the numbers returned, the call
-- that first stops the program and the final contents are the same. It is required of each call, on
-- the queue that the calls before it leave, that a source pushed as a whole has less than 2^63 bytes,
-- and that a byte that is read without being taken is there, since the ring does not check that and may give
-- another byte of its storage.
pub run_refines :
    (cs : List Call) {r : Ring}
    → IsValid r
    → AllowsAll r.cap (contents r) cs
    → run r cs ≡ deque_run r.cap (contents r) cs
unfolding run deque_run
run_refines [] v m = refl
run_refines (c ∷ cs) {r} v m =
    let same = call_refines v c m.0 in
    chain-seen r.cap (call r c) (λ r'. run r' cs) (λ q. deque_run r.cap q cs)
      (λ q. AllowsAll r.cap q cs) (call-CallKeeps v c m.0)
      (subst (λ o. Afterwards o (λ q. AllowsAll r.cap q cs)) (sym same) m.1)
      (λ r' v' e a.
        run_refines cs {r = r'} v' (subst (λ n. AllowsAll n (contents r') cs) (sym e) a)
        ∙ ap (λ n. deque_run n (contents r') cs) e)
    ∙ ap (λ o. chain o (λ q. deque_run r.cap q cs)) same
