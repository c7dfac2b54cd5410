-- ===== src/Client/Generic/Kept.antt =====
-- What of a GenericEvent is kept in its Event.
use inngestgo.Prelude.{
  String, ◌≡◌, ◌≢◌, refl, ap, ◌∙◌, subst, ◌↔◌, Option, none, some, ℤ, arith, or_else, str_eq_iff,
  pos, negsuc, zero, suc,
}
use inngestgo.Json.{
  Json, Fields, null, bool, number, string, array, object, end, field, struct_field, as_string,
  equal_fold,
}
use inngestgo.Json.Interface.{
  as_any, as_map, ReadsAs, MembersReadAs, SameKeys, as_any-ReadsAs, as_map-ReadAs,
}
use inngestgo.Client.{Event, event, validate_event, validate_any}
use inngestgo.Results.{ok}
use inngestgo.Client.Sending.{IsWellFormed, validate_any-ok}
use inngestgo.Client.Generic.{
  Encoder, GenericEvent, field?, string?, id?, timestamp?, read_id, encode_fields, read_timestamp,
  read_data, read_user, decode_event, user_json, to_event, non_nil,
}

-- Each tag finds its own field, whichever fields are left out.
module _ (i u t v : Option Json) (n d : Json) where
  abbrev written : Fields
  written =
      field? "id" i
        (field "name" n (field "data" d (field? "user" u (field? "ts" t (field? "v" v end)))))

  struct_field-id : struct_field "id" written ≡ i
  unfolding struct_field equal_fold
  struct_field-id = ground arith

  struct_field-name : struct_field "name" written ≡ some n
  unfolding struct_field equal_fold
  struct_field-name = ground arith

  struct_field-data : struct_field "data" written ≡ some d
  unfolding struct_field equal_fold
  struct_field-data = ground arith

  struct_field-user : struct_field "user" written ≡ u
  unfolding struct_field equal_fold
  struct_field-user = ground arith

  struct_field-ts : struct_field "ts" written ≡ t
  unfolding struct_field equal_fold
  struct_field-ts = ground arith

  struct_field-v : struct_field "v" written ≡ v
  unfolding struct_field equal_fold
  struct_field-v = ground arith

read_id_of : (id : Option String) → read_id (id? id) ≡ id
unfolding read_id as_string
read_id_of none = refl
read_id_of (some s) = refl

read_string? : (s : String) → or_else (as_string (string? s)) "" ≡ s
unfolding as_string
read_string? s = ground (arith, str_eq_iff s "")

validate_event-ok :
    (e : Event) (fs : Fields)
    → e.name ≢ ""
    → e.event_data ≡ some fs
    → fs ≢ end
    → validate_event e ≡ ok tt
unfolding validate_event
validate_event-ok e end n d f = absurd (f refl)
validate_event-ok e (field k v fs) n d f = rw d (ground (arith, str_eq_iff e.name ""))

module _ (number_text : ℤ → String) (number_of : String → Option ℤ) where
  read_timestamp_of :
      (t : ℤ)
      → number_of (number_text t) ≡ some t
      → read_timestamp number_text number_of (timestamp? number_text number_of t) ≡ t
  unfolding read_timestamp
  read_timestamp_of (pos zero) r = refl
  read_timestamp_of (pos (suc n)) r = rw r
  read_timestamp_of (negsuc n) r = rw r

  module _ (float : String → Option String) where
    decode_encode :
        {D U : Type 0} (ge : GenericEvent D U) (d : Json) (u : Option Json)
        → number_of (number_text ge.timestamp) ≡ some ge.timestamp
        → decode_event number_text number_of float (encode_fields number_text number_of ge d u)
          ≡ record {
            id = ge.id;
            name = ge.name;
            event_data = read_data number_text number_of float (some d);
            user = read_user number_text number_of float u;
            timestamp = ge.timestamp;
            version = ge.version;
          }
    unfolding decode_event encode_fields
    decode_encode ge d u reads_back =
        let t = timestamp? number_text number_of ge.timestamp in
        let i = id? ge.id in
        let v = string? ge.version in
        let n = string ge.name in
        let id_kept = ap read_id (struct_field-id i u t v n d) ∙ read_id_of ge.id in
        let name_kept : or_else (as_string (struct_field "name" (written i u t v n d))) ""
            ≡ ge.name =
          rw (struct_field-name i u t v n d) (unfold as_string in refl) in
        let data_kept =
          ap (read_data number_text number_of float) (struct_field-data i u t v n d) in
        let user_kept =
          ap (read_user number_text number_of float) (struct_field-user i u t v n d) in
        let time_kept =
          ap (read_timestamp number_text number_of) (struct_field-ts i u t v n d)
          ∙ read_timestamp_of ge.timestamp reads_back in
        let version_kept =
          ap (λ (o : Option Json). or_else (as_string o) "") (struct_field-v i u t v n d)
          ∙ read_string? ge.version in
        λ k. record {
          id = id_kept k;
          name = name_kept k;
          event_data = data_kept k;
          user = user_kept k;
          timestamp = time_kept k;
          version = version_kept k;
        }

    -- The user as it is read, unless it was left out or is nil.
    abbrev pub UserIs : Option Json → Option Json → Type 0
    UserIs none u = u ≡ none
    UserIs (some j) u = (w : Json) × ReadsAs float j w × (u ≡ non_nil w)

    -- The data as they are read: the same keys, each with its value.
    abbrev pub DataAre : Fields → Option Fields → Type 0
    DataAre fs d = (es : Fields) × (d ≡ some es) × MembersReadAs float fs es × SameKeys fs es

    abbrev pub IsKept : {D U : Type 0} → GenericEvent D U → Fields → Option Json → Event → Type 0
    IsKept ge fs u e =
        (e.id ≡ ge.id)
        × (e.name ≡ ge.name)
        × DataAre fs e.event_data
        × UserIs u e.user
        × (e.timestamp ≡ ge.timestamp)
        × (e.version ≡ ge.version)

    read_user-UserIs : (u : Option Json) → UserIs u (read_user number_text number_of float u)
    unfolding read_user
    read_user-UserIs none = refl
    read_user-UserIs (some j) = (as_any float j, as_any-ReadsAs float j, refl)

    module _ {D U : Type 0} (data_type : Encoder D) (user_type : Encoder U) (ge : GenericEvent D U)
        (reads_back : number_of (number_text ge.timestamp) ≡ some ge.timestamp) where
      abbrev event_of : Event
      event_of = to_event number_text number_of float data_type user_type ge

      abbrev user_of : Option (Option Json)
      user_of = user_json number_text number_of float data_type user_type ge.user

      event_of-decode :
          (d : Json) (u : Option Json)
          → data_type.marshal ge.event_data ≡ some d
          → user_of ≡ some u
          → event_of
            ≡ decode_event number_text number_of float (encode_fields number_text number_of ge d u)
      unfolding to_event
      event_of-decode d u p q = rw (p, q) refl

      -- The Event of a GenericEvent whose data are a JSON object has its id, name, time and
      -- version. Its data have the keys of the object, each with the value that it has there, and
      -- its user is the user's value, or none if that is left out as empty or is nil. A value is
      -- kept but for its numbers, which become float64s, and nil where they are out of range; of
      -- several values of one key the last one is kept. The data and the user can be marshalled,
      -- and the text of the time reads back as the time.
      pub to_event-IsKept :
          (fs : Fields) (u : Option Json)
          → data_type.marshal ge.event_data ≡ some (object fs)
          → user_json number_text number_of float data_type user_type ge.user ≡ some u
          → IsKept ge fs u (to_event number_text number_of float data_type user_type ge)
      unfolding read_data
      to_event-IsKept fs u p q =
          rw (event_of-decode (object fs) u p q ∙ decode_encode ge (object fs) u reads_back) (
            refl,
            refl,
            (as_map float fs, refl, (as_map-ReadAs float fs).0, (as_map-ReadAs float fs).1),
            read_user-UserIs u,
            refl,
            refl,
          )

      -- Where validation looks at the data, which are nil for no object.
      object_of :
          (d : Json) (fs : Fields)
          → read_data number_text number_of float (some d) ≡ some fs
          → (gs : Fields) × (d ≡ object gs) × (fs ≡ as_map float gs)
      unfolding read_data
      object_of (object gs) fs e = (gs, refl, cc)
      object_of null fs e = cc
      object_of (bool b) fs e = cc
      object_of (number n) fs e = cc
      object_of (string s) fs e = cc
      object_of (array xs) fs e = cc

      abbrev pub IsWellMade : Type 0
      IsWellMade =
          (ge.name ≢ "")
          × ((fs : Fields) × (u : Option Json) × (data_type.marshal ge.event_data
                ≡ some (object fs))
              × (user_json number_text number_of float data_type user_type ge.user ≡ some u)
              × (as_map float fs ≢ end))

      well_made :
          (m : Option Json) (w : Option (Option Json))
          → data_type.marshal ge.event_data ≡ m
          → user_of ≡ w
          → IsWellFormed (event event_of)
          → IsWellMade
      unfolding to_event
      well_made none w p q h = let k = rw p at h in absurd (k.0 refl)
      well_made (some d) none p q h = let k = rw (p, q) at h in absurd (k.0 refl)
      well_made (some d) (some u) p q h =
          let e = event_of-decode d u p q ∙ decode_encode ge d u reads_back in
          let (name_set, (fs, data_set, filled)) = subst (λ x. IsWellFormed (event x)) e h in
          let (gs, is_object, same) = object_of d fs data_set in
          (name_set, (gs, u, p ∙ ap some is_object, q, λ f. filled (same ∙ f)))

      -- The Event of a GenericEvent passes Event.Validate exactly if the name is not empty, the
      -- data are written as a JSON object that is read back with some member, and the user can be
      -- marshalled; the text of a number reads back as the number.
      pub to_event-IsWellMade :
          (validate_event (to_event number_text number_of float data_type user_type ge) ≡ ok tt)
          ↔ IsWellMade
      to_event-IsWellMade = (
        λ h.
            well_made (data_type.marshal ge.event_data) user_of refl refl
              (validate_any-ok (event event_of) tt (unfold validate_any in h)),
        λ (name_set, (fs, u, p, q, filled)).
            let e = event_of-decode (object fs) u p q ∙ decode_encode ge (object fs) u reads_back in
            rw e (validate_event-ok _ (as_map float fs) name_set (unfold read_data in refl) filled),
      )
