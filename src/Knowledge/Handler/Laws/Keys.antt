-- ===== src/Knowledge/Handler/Laws/Keys.antt =====
-- A key is applied once, over every sequence of messages.
use kaf_claw.Base.{Text, is_some, true, Option, some, List, [], ◌∷◌, ◌≡◌, subst, sym}
use kaf_claw.Knowledge.Handler.{Message, Handler, process}
use kaf_claw.Knowledge.Handler.Laws.{
  is_seen, Passes, process-is_seen, process-seen, process-records,
}
use kaf_claw.Knowledge.Handler.Laws.Facts.{process_all}

process_all-is_seen :
    (key : Text) (h : Handler) (ms : List (Option Message))
    → is_seen key h ≡ true
    → is_seen key (process_all h ms) ≡ true
unfolding process_all
process_all-is_seen key h [] e = e
process_all-is_seen key h (m ∷ ms) e =
    process_all-is_seen key (process h m).1 ms (process-is_seen key h m e)

-- Once a handler with a timeline has had a message that no guard turns away, whether or not its payload
-- could be applied, no message with the key of that one changes the handler, whatever its type and
-- payload are and whatever messages came between.
pub process_all-duplicate :
    (h : Handler) (m m' : Message) (ms : List (Option Message))
    → is_some h.store ≡ true
    → Passes h m
    → m'.envelope.idempotency_key ≡ m.envelope.idempotency_key
    → let h' = process_all (process h (some m)).1 ms in (process h' (some m')).1 ≡ h'
process_all-duplicate h m m' ms st p e =
    let h' = process_all (process h (some m)).1 ms in
    process-seen h' m' (
      subst (λ key. is_seen key h' ≡ true) (sym e)
        (process_all-is_seen m.envelope.idempotency_key (process h (some m)).1 ms
          (process-records h m st p)))
