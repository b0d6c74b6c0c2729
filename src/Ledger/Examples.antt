-- ===== src/Ledger/Examples.antt =====
-- src/fetech/ledger.py: a concrete payload, and a stream that begins while its run goes on.
use fetech.Prelude.{ℕ, ◌≡◌, ◌≢◌, refl, ◌⊎◌, true, false, some, [], ◌∷◌, In, All, arith}
use fetech.Prelude.Text.{lower}
use fetech.Models.Status.{queued}
use fetech.Security.Url.{SplitUrl, no_port, sanitize_url, read_port}
use fetech.Ledger.Document.{
  text, number, Fields, no_field, field, plain, TextLibrary, sanitize_text_url,
}
use fetech.Ledger.Sanitize.{
  is_secret_key, sanitize_text, sanitize_payload, sanitize_items, sanitize_fields,
}
use fetech.Ledger.Stream.{
  Event, returned, System, initial, stored, events, append_row, append_other, announce, lose,
  set_state, finish, tell_end, read, creates, appends, appends_other, announces, finishes, tells,
  reads, Reach, start, next,
}
use fetech.Ledger.Stream.Events.{Unique}
use fetech.Ledger.Stream.Unsent.{unsent_of}
use fetech.Ledger.Stream.Once.{stream_no_repeats, stream_complete}

abbrev page : SplitUrl
page = record {
  scheme = "https";
  username = "user";
  password = "pw";
  hostname = "example.org";
  port = no_port;
  path = "/";
  query = "";
  fragment = "";
}

abbrev library : TextLibrary
library = record {
  urls = record {
    idna = λ h. some h;
    parse_qsl = λ keep query. [];
    urlencode = λ pairs. "";
    urlsplit = λ s. some page;
    urlunsplit = λ u. u.hostname;
  };
  url_pieces = λ s. plain s ∷ [];
}

abbrev payload : Fields
payload = field "Api-Key" (text "k") (
    field "model_tokens" (number 3) (field "target" (text "https://user:pw@example.org/") no_field))

kept :
    sanitize_fields library false payload
    ≡ field "Api-Key"
        (text "[REDACTED]")
        (field "model_tokens" (number 3) (field "target" (text "example.org") no_field))
unfolding sanitize_payload sanitize_items sanitize_fields is_secret_key sanitize_text lower
    sanitize_text_url sanitize_url read_port
kept = refl

abbrev event : ℕ → ℕ → Event
event id run = record {
  event_id = id;
  run_id = run;
  event_type = "run.step";
  actor = "executor";
  payload = no_field;
  parent_event_ids = [];
}

abbrev row : ℕ → ℕ → Event
row id run = stored library false (event id run)

-- The states of a run 7, whose stream begins after the commit of its first event
abbrev s1 : System
s1 = append_row (row 1 7) (set_state queued initial)

abbrev s2 : System
s2 = read 7 (read 7 (announce 0 (row 1 7) (read 7 s1)))

abbrev s3 : System
s3 = announce 0 (row 3 7) (append_row (row 3 7) (append_other (row 2 8) (read 7 s2)))

abbrev s4 : System
s4 = tell_end (finish (read 7 (read 7 s3)))

r1 : Reach library false 7 s1
unfolding set_state
r1 =
    next (set_state queued initial) s1
      (next initial (set_state queued initial) start (creates initial refl))
      (appends (event 1 7) (set_state queued initial) refl refl)

r2 : Reach library false 7 s2
unfolding set_state append_row read events
r2 =
    let a = read 7 s1 in
    let b = announce 0 (row 1 7) a in
    next (read 7 b) s2
      (next b (read 7 b) (next a b (next s1 a r1 (reads s1)) (announces 0 (row 1 7) a refl))
        (reads b))
      (reads (read 7 b))

r3 : Reach library false 7 s3
unfolding set_state append_row append_other announce read events
r3 =
    let a = read 7 s2 in
    let b = append_other (row 2 8) a in
    let c = append_row (row 3 7) b in
    let other : 8 ≢ 7 = λ h. omega (arith, h) in
    next c s3
      (next b c (next a b (next s2 a r2 (reads s2)) (appends_other (event 2 8) a other refl))
        (appends (event 3 7) b refl refl))
      (announces 0 (row 3 7) c refl)

r4 : Reach library false 7 s4
unfolding set_state append_row append_other announce read events finish
r4 =
    let a = read 7 s3 in
    let b = read 7 a in
    let c = finish b in
    next c s4 (next b c (next a b (next s3 a r3 (reads s3)) (reads a)) (finishes queued b refl))
      (tells c refl)

stream_no_repeats_example : Unique s4.yielded × All (λ e. In e (events 7 s4.rows)) s4.yielded
stream_no_repeats_example = stream_no_repeats library false 7 s4 r4

over : (read 7 s4).phase ≡ returned
unfolding set_state append_row append_other announce read events finish tell_end
over = refl

r5 : Reach library false 7 (read 7 s4)
r5 = next s4 (read 7 s4) r4 (reads s4)

stream_complete_example :
    ((read 7 s4).finishing ≡ true)
    × All
        (λ e. In e (read 7 s4).yielded ⊎ In e (unsent_of (read 7 s4) r5))
        (events 7 (read 7 s4).rows)
stream_complete_example = stream_complete library false 7 (read 7 s4) r5 over

yields_both : (read 7 s4).yielded ≡ row 1 7 ∷ row 3 7 ∷ []
unfolding set_state append_row append_other announce read events finish tell_end
yields_both = refl

-- No event of this run was left unsent.
all_sent : (read 7 s4).unsent ≡ []
unfolding set_state append_row append_other announce read events finish tell_end
all_sent = refl

-- A run whose only append is cancelled between its commit and the queues, while a stream waits: the
-- stream returns without the event.
abbrev lost : System
lost =
    let waiting_stream = read 7 (read 7 (read 7 (set_state queued initial))) in
    let committed = append_row (row 1 7) waiting_stream in
    read 7 (tell_end (finish (lose 0 (row 1 7) committed)))

lost_event : (lost.phase ≡ returned) × (lost.yielded ≡ []) × (events 7 lost.rows ≡ row 1 7 ∷ [])
unfolding set_state append_row announce lose read events finish tell_end
lost_event = (refl, refl, refl)
