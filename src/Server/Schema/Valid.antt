-- ===== src/Server/Schema/Valid.antt =====
-- Which requests `Validate` passes, and how it leaves them.
use gocourier.Common.{
  ◌≡◌, ◌≢◌, ◌≤◌, ◌⊎◌, ◌↔◌, ◌∙◌, refl, sym, ap, subst, arith, true, false, not, ◌&&◌, [], ◌∷◌,
  String, ltb, is_empty, str_eq, eq_iff, Bool-cases, inl, inr,
}
use gocourier.Api.Types.{Channel, Priority}
use gocourier.Server.Words.{byte_length}
use gocourier.Server.Failures.{ok, errorf, ok-of, guard-of}
use gocourier.Server.Schema.{
  IngestRequest, schema_version_1, or_default, validate, parse_channel, parse_priority,
}

-- The request as `Validate` leaves it.
abbrev pub filled : IngestRequest → IngestRequest
filled r = record r {
  schema_version = or_default r.schema_version schema_version_1;
  metadata = record r.metadata { tenant_id = or_default r.metadata.tenant_id "default" };
}

ok-inj {ℓ} : {A : Type ℓ} (a b : A) → ok a ≡ ok b → a ≡ b
ok-inj a b h = cc

version-of : (s : String) → not (str_eq s schema_version_1) ≡ false → s ≡ schema_version_1
version-of s h = elim (Bool-cases (str_eq s schema_version_1)) [
  | inl same ↦ (eq_iff s schema_version_1).0 same
  | inr other ↦ let e : true ≡ false = rw other at h in cc
]

-- What a request must be to be passed.
pub record IsAcceptable (r : IngestRequest) : Type 0 where
  pub version : (r.schema_version ≡ "") ⊎ (r.schema_version ≡ "1.0")
  pub key_given : r.idempotency_key ≢ ""
  pub key_short : byte_length r.idempotency_key ≤ 256
  pub channel : Channel
  pub channel_is : parse_channel r.channel ≡ ok channel
  pub priority : Priority
  pub priority_is : parse_priority r.priority ≡ ok priority
  pub recipient : r.recipient ≢ ""
  pub content : (r.template ≢ "") ⊎ (r.payload ≢ "")

is_empty-given : (s : String) → is_empty s ≡ false → s ≢ ""
is_empty-given s h e = let k : true ≡ false = rw e at h in cc

given-is_empty : (s : String) → s ≢ "" → is_empty s ≡ false
given-is_empty String.[] h = absurd (h refl)
given-is_empty (String.◌∷◌ c s) h = refl

version-known :
    (s : String) → or_default s schema_version_1 ≡ schema_version_1 → (s ≡ "") ⊎ (s ≡ "1.0")
version-known String.[] h = inl refl
version-known (String.◌∷◌ c s) h = inr h

known-version :
    (s : String)
    → (s ≡ "") ⊎ (s ≡ "1.0")
    → not (str_eq (or_default s schema_version_1) schema_version_1) ≡ false
known-version s (inl e) = rw e refl
known-version s (inr e) = rw e refl

content-given : (t p : String) → (is_empty t && is_empty p) ≡ false → (t ≢ "") ⊎ (p ≢ "")
content-given t p h = elim (Bool-cases (is_empty t)) [
  | inl none_t ↦ inr (is_empty-given p (rw none_t at h))
  | inr some_t ↦ inl (is_empty-given t some_t)
]

given-content : (t p : String) → (t ≢ "") ⊎ (p ≢ "") → (is_empty t && is_empty p) ≡ false
given-content t p (inl h) = rw (given-is_empty t h) refl
given-content t p (inr h) = elim (Bool-cases (is_empty t)) [
  | inl none_t ↦ rw (none_t, given-is_empty p h) refl
  | inr some_t ↦ rw some_t refl
]

passed-IsAcceptable : (r v : IngestRequest) → validate r ≡ ok v → IsAcceptable r × (v ≡ filled r)
unfolding validate
passed-IsAcceptable r v h =
    let version = or_default r.schema_version schema_version_1 in
    let unsupported = errorf ("unsupported schema_version: " ∷ version ∷ []) in
    let (known, h) = guard-of (not (str_eq version schema_version_1)) unsupported _ v h in
    let (has_key, h) =
      guard-of (is_empty r.idempotency_key) (errorf ("idempotency_key is required" ∷ [])) _ v h in
    let (short_key, h) =
      guard-of (ltb 256 (byte_length r.idempotency_key))
        (errorf ("idempotency_key exceeds 256 characters" ∷ [])) _ v h in
    let (channel, channel_is, h) = ok-of (parse_channel r.channel) _ v h in
    let (priority, priority_is, h) = ok-of (parse_priority r.priority) _ v h in
    let (has_recipient, h) =
      guard-of (is_empty r.recipient) (errorf ("recipient is required" ∷ [])) _ v h in
    let (has_content, h) =
      guard-of (is_empty r.template && is_empty r.payload)
        (errorf ("template or payload is required" ∷ [])) _ v h in
    (
      record {
        version = version-known r.schema_version (version-of version known);
        key_given = is_empty-given r.idempotency_key has_key;
        key_short = ground (arith, short_key);
        channel = channel;
        channel_is = channel_is;
        priority = priority;
        priority_is = priority_is;
        recipient = is_empty-given r.recipient has_recipient;
        content = content-given r.template r.payload has_content;
      },
      sym (ok-inj (filled r) v h),
    )

acceptable-passed : (r : IngestRequest) → IsAcceptable r → validate r ≡ ok (filled r)
unfolding validate
acceptable-passed r a =
    let short_key : ltb 256 (byte_length r.idempotency_key) ≡ false = ground (arith, a.key_short) in
    rw
      (
        known-version r.schema_version a.version,
        given-is_empty r.idempotency_key a.key_given,
        short_key,
        a.channel_is,
        a.priority_is,
        given-is_empty r.recipient a.recipient,
        given-content r.template r.payload a.content,
      )
      refl

-- `Validate` passes a request exactly if its version is empty or 1.0, its key has from 1 to 256 bytes, its
-- channel and priority can be read, its recipient is not empty, and its template or its payload is not
-- empty. It leaves the request with an empty version set to 1.0 and an empty tenant set to `default`, and
-- else as it is.
pub validate-accepts :
    (r v : IngestRequest) → (validate r ≡ ok v) ↔ (IsAcceptable r × (v ≡ filled r))
validate-accepts r v =
    (λ h. passed-IsAcceptable r v h, λ (a, same). acceptable-passed r a ∙ ap ok (sym same))

or_default_idem :
    (s d : String) → is_empty d ≡ false → or_default (or_default s d) d ≡ or_default s d
or_default_idem s d h = elim (Bool-cases (is_empty s)) [
  | inl missing ↦ rw (missing, h) refl
  | inr given ↦ rw (given, given) refl
]

filled-IsAcceptable : (r : IngestRequest) → IsAcceptable r → IsAcceptable (filled r)
filled-IsAcceptable r a = record {
  version = elim a.version [ inl e ↦ inr (rw e refl) | inr e ↦ inr (rw e refl) ];
  key_given = a.key_given;
  key_short = a.key_short;
  channel = a.channel;
  channel_is = a.channel_is;
  priority = a.priority;
  priority_is = a.priority_is;
  recipient = a.recipient;
  content = a.content;
}

-- A request that `Validate` has passed and filled in passes again and stays as it is.
pub validate-validate : (r v : IngestRequest) → validate r ≡ ok v → validate v ≡ ok v
validate-validate r v h =
    let (a, same) = (validate-accepts r v).0 h in
    let version = or_default_idem r.schema_version schema_version_1 refl in
    let tenant = or_default_idem r.metadata.tenant_id "default" refl in
    let again : v ≡ filled v = rw (same, version, tenant) refl in
    (validate-accepts v v).1 (subst IsAcceptable (sym same) (filled-IsAcceptable r a), again)
