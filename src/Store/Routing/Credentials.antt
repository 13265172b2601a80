-- ===== src/Store/Routing/Credentials.antt =====
-- internal/store/ingest.go and routing.go: the headers that the ingestion stores.

use hookfly.Base.{
  String, Bool, true, false, not, Option, none, some, List, [], ◌∷◌, ◌≡◌, refl, sym, ap, ◌∙◌, subst,
  In, In-append, In-keep_if, find?, is_taken, Bool-cases, Option-cases, inl, inr, arith,
}
use hookfly.Domain.{Uuid, Bytes, IngestCommand, IngestResult}
use hookfly.Store.Headers.{
  HeaderMap, HeaderCodec, is_credential, is_kept, drop_credentials, or_nothing, safe_values,
  safe_headers_json,
}
use hookfly.Store.Tables.{
  EventRow, QueueRow, Db, Result, ok, err, invalid_command, constraint_failed, ◌>>=◌, guard,
  new_uuid, >>=-eq-ok,
}
use hookfly.Store.Routing.{
  is_deferred, is_duplicate, event_row, validate_deliveries, validate_persisted_event, insert_event,
  insert_deliveries, finish_ingest, ingest, enqueue, finish_deferred, ingest_deferred,
}
use hookfly.Store.Routing.Laws.{ok_inj, guards_passed}
use hookfly.Store.Routing.Replay.{insert_deliveries-events}

abbrev pub entries_of : HeaderMap → List (String × Bytes)
entries_of none = []
entries_of (some entries) = entries

-- What is relied on of JSON: an empty text is none, and what `json.Marshal` writes has no other names.
pub record HeaderLaws (codec : HeaderCodec) : Type 0 where
  pub empty_text : codec.decode [] ≡ none
  pub names :
      (values : HeaderMap) (text : Bytes) (read : HeaderMap)
      → codec.encode values ≡ some text
      → codec.decode text ≡ some read
      → (name : String) (value : Bytes) → In (name, value) (entries_of read)
      → (written : Bytes) × In (name, written) (entries_of values)

module _ (codec : HeaderCodec) where
  -- No header that is read back from the text has the name of a credential.
  abbrev pub HidesCredentials : Bytes → Type 0
  HidesCredentials text =
      (read : HeaderMap)
      → codec.decode text ≡ some read
      → (name : String) (value : Bytes) → In (name, value) (entries_of read)
      → is_credential codec name ≡ false

  abbrev pub AllHide : Db → Type 0
  AllHide db = (e : EventRow) → In e db.events → HidesCredentials e.headers_json

  module _ (laws : HeaderLaws codec) where
    empty-HidesCredentials : HidesCredentials []
    empty-HidesCredentials read h = absurd (none≢some (sym laws.empty_text ∙ h))
      where
        none≢some : {x : HeaderMap} → ◌≡◌ {A = Option HeaderMap} none (some x) → ⊥
        none≢some p = cc

    kept_name :
        (values : HeaderMap) (name : String) (value : Bytes)
        → In (name, value) (entries_of (drop_credentials codec values))
        → is_credential codec name ≡ false
    kept_name none name value m = absurd m
    kept_name (some entries) name value m =
        off _ (In-keep_if (is_kept codec) entries (name, value) m).1
      where
        off : (b : Bool) → not b ≡ true → b ≡ false
        off b h = ground arith

    encoded-HidesCredentials :
        (values : HeaderMap) (o : Option Bytes)
        → codec.encode (drop_credentials codec values) ≡ o
        → HidesCredentials (or_nothing codec o)
    encoded-HidesCredentials values none h = empty-HidesCredentials
    encoded-HidesCredentials values (some text) h = λ read d name value m.
        let (written, k) = laws.names (drop_credentials codec values) text read h d name value m in
        kept_name values name written k

    safe_headers_json-HidesCredentials :
        (headers : Bytes) → HidesCredentials (safe_headers_json codec headers)
    unfolding safe_headers_json
    safe_headers_json-HidesCredentials [] = empty-HidesCredentials
    safe_headers_json-HidesCredentials (b ∷ bs) = decoded (codec.decode (b ∷ bs))
      where
        decoded : (o : Option HeaderMap) → HidesCredentials (safe_values codec o)
        decoded none = empty-HidesCredentials
        decoded (some values) =
            encoded-HidesCredentials values (codec.encode (drop_credentials codec values)) refl

    insert_event-AllHide :
        (c : IngestCommand) (db : Db) (res : IngestResult) (db' : Db)
        → AllHide db
        → insert_event codec c db ≡ ok (res, db')
        → AllHide db'
    unfolding insert_event
    insert_event-AllHide c db res db' v h = elim (Option-cases (find? (is_duplicate c) db.events)) [
      | inr (e, f) ↦
          let same = ap (λ (p : IngestResult × Db). p.1) (ok_inj (rw (f, insert_event) at h)) in
          subst AllHide same v
      | inl f ↦ elim (Bool-cases (is_taken (λ (e : EventRow). e.id) (new_uuid db) db.events)) [
        | inl t ↦ absurd (err_ok (rw (f, t, insert_event) at h))
        | inr t ↦
            let same =
              ap (λ (p : IngestResult × Db). p.1) (ok_inj (rw (f, t, insert_event) at h)) in
            subst AllHide same (λ e m.
              elim (In-append db.events (event_row codec (new_uuid db) c ∷ []) e m) [
                | inl k ↦ v e k
                | inr k ↦ elim k [
                  | inl q ↦ rw q (safe_headers_json-HidesCredentials c.headers_json)
                  | inr n ↦ absurd n
                ]
              ])
      ]
    ]
      where
        err_ok :
            {x : IngestResult × Db}
            → ◌≡◌ {A = Result (IngestResult × Db)} (err constraint_failed) (ok x)
            → ⊥
        err_ok p = cc

    same_events : (db db' : Db) → db'.events ≡ db.events → AllHide db → AllHide db'
    same_events db db' same v e m = v e (subst (λ (es : List EventRow). In e es) same m)

    second :
        {r : IngestResult} {x y : Db} {s : IngestResult}
        → ◌≡◌ {A = Result (IngestResult × Db)} (ok (r, x)) (ok (s, y))
        → x ≡ y
    second p = cc

    enqueue_events :
        (id : Uuid) (db db' : Db) → enqueue codec id db ≡ ok db' → db'.events ≡ db.events
    enqueue_events id db db' h =
        elim (Bool-cases (is_taken (λ (q : QueueRow). q.event_id) id db.routing_queue)) [
          | inl t ↦ absurd (err_ok (rw t at h))
          | inr t ↦ ap (λ (d : Db). d.events) (sym (ok_inj (rw t at h)))
        ]
      where
        err_ok : {x : Db} → ◌≡◌ {A = Result Db} (err constraint_failed) (ok x) → ⊥
        err_ok p = cc

    pub ingest-AllHide :
        (c : IngestCommand) (db : Db) (res : IngestResult) (db' : Db)
        → AllHide db
        → ingest codec c db ≡ ok (res, db')
        → AllHide db'
    unfolding ingest
    ingest-AllHide c db res db' v h =
        let m =
          guards_passed (guard (not (is_deferred c.routing_result)) invalid_command)
            (validate_deliveries c.routing_result c.deliveries) (validate_persisted_event c)
            (insert_event codec c db >>= finish_ingest codec c) h in
        let ((r, d), e, n) = >>=-eq-ok (insert_event codec c db) (finish_ingest codec c) m in
        let w = insert_event-AllHide c db r d v e in
        elim (Bool-cases r.duplicate) [
          | inl t ↦ subst AllHide (second (rw t at n)) w
          | inr t ↦
              let (x, f, o) =
                >>=-eq-ok (insert_deliveries r.event_id c.received_at c.deliveries d) _
                  (rw t at n) in
              subst AllHide (second o) (
                same_events d x
                  (insert_deliveries-events r.event_id c.received_at c.deliveries d x f) w)
        ]

    pub ingest_deferred-AllHide :
        (c : IngestCommand) (db : Db) (res : IngestResult) (db' : Db)
        → AllHide db
        → ingest_deferred codec c db ≡ ok (res, db')
        → AllHide db'
    unfolding ingest_deferred
    ingest_deferred-AllHide c db res db' v h =
        let m =
          guards_passed (guard (is_deferred c.routing_result) invalid_command)
            (validate_deliveries c.routing_result c.deliveries) (validate_persisted_event c)
            (insert_event codec c db >>= finish_deferred codec) h in
        let ((r, d), e, n) = >>=-eq-ok (insert_event codec c db) (finish_deferred codec) m in
        let w = insert_event-AllHide c db r d v e in
        elim (Bool-cases r.duplicate) [
          | inl t ↦ subst AllHide (second (rw t at n)) w
          | inr t ↦
              let (x, f, o) = >>=-eq-ok (enqueue codec r.event_id d) _ (rw t at n) in
              subst AllHide (second o) (same_events d x (enqueue_events r.event_id d x f) w)
        ]
