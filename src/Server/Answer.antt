-- ===== src/Server/Answer.antt =====
-- What a command of code/kserver.h leaves for the client that waits for it.
use kynovo.Common.{
  ◌^◌, ◌<◌, ◌≡◌, ◌∙◌, [], Bool, true, false, Option, none, some, if◌then◌else◌, length, refl, ap,
  arith,
}
use kynovo.Common.Memory.{Rc, ok, fail}
use kynovo.Bytes.Word.{Bytes}
use kynovo.Bytes.Buf.{Buf, empty_buf, put-Writes, put-Open}
use kynovo.Bytes.Buf
use kynovo.Treap.Update.{Unchanged}
use kynovo.Server.State.{Request, Server, with_result, result_for}

-- The client that waits finds the bytes if 0 is returned; -1 is returned only if a client waits, and,
-- while the bytes have a length of one word, not with memory left.
pub record Answered (bs : Bytes) (s : Server) (out : Rc × Server) : Type 0 where
  pub alone : s.waiting ≡ none → out.0 ≡ ok
  pub answered :
      (q : Request)
      → s.waiting ≡ some q
      → out.0 ≡ ok
      → out.1.waiting ≡ some record { conflict = q.conflict; result = bs }
  pub fits : s.tree.memory ≡ [] → length bs < 2 ^ 32 → out.0 ≡ ok

pub fine_of : (err : Bool) → (if err then fail else ok) ≡ ok → err ≡ false
fine_of false h = refl
fine_of true h = cc h

-- With memory left, a result that is not too long is written.
pub with_result_ok :
    (conflict : Bool) (bs : Bytes) (s : Server)
    → s.tree.memory ≡ []
    → length bs < 2 ^ 32
    → (with_result conflict (Buf.put bs (empty_buf s.tree.memory)) s).0 ≡ ok
with_result_ok conflict bs s m h =
    rw
      ((put-Open bs (empty_buf s.tree.memory) record { fine = refl; memory = m }
        (omega (arith, h))).fine)
      refl

-- The result that was written is the one that the client finds.
pub with_result_answer :
    (conflict : Bool) (bs : Bytes) (s : Server)
    → (with_result conflict (Buf.put bs (empty_buf s.tree.memory)) s).0 ≡ ok
    → (with_result conflict (Buf.put bs (empty_buf s.tree.memory)) s).1.waiting
      ≡ some record { conflict = conflict; result = bs }
with_result_answer conflict bs s f =
    ap (λ x. some record { conflict = conflict; result = x })
      ((put-Writes bs (empty_buf s.tree.memory)).wrote (fine_of _ f)).1

pub result_for_tree :
    (bs : Bytes) (mid : Server) (waiting : Option Request)
    → Unchanged mid.tree (result_for bs mid waiting).1.tree
unfolding result_for
result_for_tree bs mid none = record { root = refl; count = refl }
result_for_tree bs mid (some q) = record { root = refl; count = refl }

pub result_for-Answered :
    (bs : Bytes) (s mid : Server) (waiting : Option Request)
    → waiting ≡ s.waiting
    → (s.tree.memory ≡ [] → mid.tree.memory ≡ [])
    → Answered bs s (result_for bs mid waiting)
unfolding result_for
result_for-Answered bs s mid none e m = record {
  alone = λ h. refl;
  answered = λ q h f. cc (e ∙ h);
  fits = λ h n. refl;
}
result_for-Answered bs s mid (some q) e m = record {
  alone = λ h. cc (e ∙ h);
  answered = λ q' h f.
      with_result_answer q.conflict bs mid f
      ∙ ap (λ c. some record { conflict = c; result = bs }) (same q' (e ∙ h));
  fits = λ h n. with_result_ok q.conflict bs mid (m h) n;
}
  where
    conflict_of : Option Request → Bool
    conflict_of none = false
    conflict_of (some x) = x.conflict

    same : (q' : Request) → ◌≡◌ {A = Option Request} (some q) (some q') → q.conflict ≡ q'.conflict
    same q' h = ap conflict_of h
