-- ===== src/Examples/Workers.antt =====
-- A worker that watches one tunnel until a signal, and one whose session belongs to somebody else.
use tunstrap.Common.{◌≡◌, refl, true, [], ◌∷◌, ok, err}
use tunstrap.Session.Create.{session_active}
use tunstrap.Worker.Supervise.{
  stop_requested, cleanup, dispose_session, steps, step, has_required, supervise,
}
use tunstrap.Worker.Entry.{
  run, with_session, write_message, framed, closed, identified, stopped, disposed, exits, sent,
  valid, built, Surroundings, on_building, report_session_active, supervised, main,
}
use tunstrap.Worker.Protocol.{is_created, Tells, main-Tells}

abbrev surroundings : Surroundings
surroundings = record {
  created = ok true;
  identity_written = true;
  reading = valid;
  building = built (record { name = "bastion"; required = true } ∷ []);
  sending = sent;
  events = stop_requested ∷ [];
}

life :
    (main surroundings).acts
    ≡ identified ∷ framed "success" ∷ closed ∷ stopped ∷ disposed cleanup ∷ []
unfolding main on_building supervised supervise dispose_session steps run with_session write_message
    step has_required
life = refl

refused : (main (record surroundings { created = err session_active })).exit ≡ exits 3
unfolding main report_session_active
refused = refl

main-Tells_example :
    Tells
      (is_created surroundings.created)
      surroundings.sending
      surroundings.reading
      (main surroundings).exit
      (main surroundings).acts
main-Tells_example = main-Tells surroundings
