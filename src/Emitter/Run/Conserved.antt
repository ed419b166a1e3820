-- ===== src/Emitter/Run/Conserved.antt =====
-- Where no thread acts during a pass of the flusher, the accepted records are those flushed and those
-- still held.
use beyond_kvtransfer.Base.{
  ◌+◌, ◌≡◌, Bool, true, Option, List, [], ◌∷◌, string_eq, ◌∙◌, arith, count_by, count_by-append,
}
use beyond_kvtransfer.Value.{Rec}
use beyond_kvtransfer.Text.{Text}
use beyond_kvtransfer.Emitter.Held.{held}
use beyond_kvtransfer.Emitter.Run.{Action, event_of, admitted, taken, World, step, run}
use beyond_kvtransfer.Emitter.Run.Balance.{Balance-perform}

-- Of the records that pass a test, those accepted so far are as many as those flushed and those
-- held together; and the counter of the emitter is the number of refused records.
pub record IsConserved (w : World) : Type 0 where
  pub enabled : w.em.enabled ≡ true
  pub conserved :
      (p : Rec → Bool) → count_by p w.accepted ≡ count_by p w.flushed + held p w.em.buffers
  pub counted : w.em.dropped_total ≡ w.dropped

module _ (dumps : Rec → Option Text) where
  step-IsConserved : (a : Action) (w : World) → IsConserved w → IsConserved (step dumps a w)
  unfolding step
  step-IsConserved a w c =
      let b = λ (p : Rec → Bool). Balance-perform dumps p a w.em w.files c.enabled in
      record {
        enabled = (b (λ r. true)).enabled ∙ c.enabled;
        conserved = λ p.
            rw
              (
                count_by-append p w.accepted (admitted (event_of a w.em) w.em),
                count_by-append p w.flushed (taken a w.em),
              )
              (omega (arith, (b p).balance, c.conserved p));
        counted = omega (arith, (b (λ r. true)).dropped, c.counted);
      }

  -- On an enabled emitter, in whatever order its threads act and its flusher makes whole passes, with
  -- no thread acting during a pass, if it was so before: each record that found room is either flushed or still held, as often as it was
  -- accepted, and `dropped_records_total` counts exactly the records that found none.
  pub run-IsConserved :
      (actions : List Action) (w : World) → IsConserved w → IsConserved (run dumps actions w)
  unfolding run
  run-IsConserved [] w c = c
  run-IsConserved (a ∷ actions) w c =
      run-IsConserved actions (step dumps a w) (step-IsConserved a w c)
