-- ===== src/Telemetry/TelemetryCom/Transfer.antt =====
-- What the server sends, the client has.
use Prim.Native.String.{String}
use ts_m2cellcpp.Prelude.{
  ℕ, ◌+◌, ◌≡◌, ◌≢◌, refl, sym, ap, ◌∙◌, subst, inl, inr, true, false, List, [], ◌∷◌, ◌++◌,
  append_assoc, Option, none, some, All, if◌then◌else◌, ◌⊎◌, length,
}
use ts_m2cellcpp.Util.CsvFile.{Text}
use ts_m2cellcpp.Net.ComConnection.{take}
use ts_m2cellcpp.Telemetry.Json.{Json}
use ts_m2cellcpp.Telemetry.TelemetryItem.{ItemMap, build_json_from_map}
use ts_m2cellcpp.Telemetry.TelemetryItem.Laws.{AllAlike, Fresh, Distinct}
use ts_m2cellcpp.Telemetry.TelemetryMap.Laws.{Absent, set_item_from_json-build_json_from_map}
use ts_m2cellcpp.Telemetry.TelemetryCom.{
  Texts, Readable, reading, and_read, read_bytes, set_item_from_json_str, client_message, client,
  Sending, frame, send_items,
}
use ts_m2cellcpp.Telemetry.TelemetryCom.Bytes.{read_bytes-frame}

module _ {D : Type 0} where
  -- The item of the client has the layout of the item of the server.
  abbrev pub Fits : ItemMap D → ItemMap D → Type 0
  Fits a b = (a.id ≡ b.id) × Distinct a.ti_map × Fresh "id" a.ti_map × AllAlike a.ti_map b.ti_map

  abbrev pub AllFit : List (Sending D) → List (ItemMap D) → Type 0
  AllFit [] [] = Unit
  AllFit ((a, f) ∷ items) (b ∷ bs) = Fits a b × AllFit items bs
  AllFit _ _ = ⊥

  abbrev pub Apart : List (ItemMap D) → List (Sending D) → Type 0
  Apart before items = All (λ (a : Sending D). Absent a.0.id before) items

  -- No two items have one id.
  abbrev pub DistinctIds : List (Sending D) → Type 0
  DistinctIds [] = Unit
  DistinctIds ((a, f) ∷ items) = All (λ (b : Sending D). a.id ≢ b.0.id) items × DistinctIds items

  Absent-snoc :
      (id : String) (before : List (ItemMap D)) (b : ItemMap D)
      → Absent id before
      → b.id ≢ id
      → Absent id (before ++ b ∷ [])
  Absent-snoc id [] b p n = (n, tt)
  Absent-snoc id (m ∷ ms) b (q, p) n = (q, Absent-snoc id ms b p n)

  Apart-snoc :
      (before : List (ItemMap D)) (b : ItemMap D) (items : List (Sending D))
      → Apart before items
      → All (λ (a : Sending D). b.id ≢ a.0.id) items
      → Apart (before ++ b ∷ []) items
  Apart-snoc before b [] p q = tt
  Apart-snoc before b ((a, f) ∷ items) (p, ps) (q, qs) =
      (Absent-snoc a.id before b p q, Apart-snoc before b items ps qs)

-- A send that does not fail takes all the bytes.
abbrev pub Whole : (ℕ → Text → Option ℕ) → Type 0
Whole sent = (n : ℕ) (s : Text) (k : ℕ) → sent n s ≡ some k → k ≡ length s

take-length : (s : Text) → take (length s) s ≡ s
take-length [] = refl
take-length (c ∷ s) = ap (c ∷◌) (take-length s)

module _ {D J V : Type 0} (lib : Json D J V) (texts : Texts J) where
  abbrev framed : ItemMap D → Text
  framed a = frame (texts.to_string (build_json_from_map lib a))

  -- The items of the client after one pass of the server: those that were sent are the server's, up
  -- to the first send that fails; the others are as they were.
  abbrev pub received :
      (ℕ → Text → Option ℕ) → ℕ → List (Sending D) → List (ItemMap D) → List (ItemMap D)
  received sent n ((a, f) ∷ items) (b ∷ bs) =
      let skipped = b ∷ received sent n items bs in
      let more = a ∷ received sent (n + 1) items bs in
      if f then skipped else elim (sent n (framed a)) [ none ↦ b ∷ bs | some k ↦ more ]
  received sent n _ bs = bs

  client_message-item :
      (a b : ItemMap D) (before after : List (ItemMap D))
      → Readable texts (build_json_from_map lib a)
      → Fits a b
      → Absent a.id before
      → client_message lib texts (texts.to_string (build_json_from_map lib a)) (before ++ b ∷ after)
        ≡ (before ++ a ∷ after, none)
  unfolding client_message set_item_from_json_str
  client_message-item a b before after r (e, d, f, h) n =
      rw
        (
          set_item_from_json_str,
          r.0,
          set_item_from_json-build_json_from_map lib a b before after e n d f h,
        )
        refl

  client-item :
      (a b : ItemMap D) (before after : List (ItemMap D)) (bytes : Text)
      → Readable texts (build_json_from_map lib a)
      → Fits a b
      → Absent a.id before
      → client lib texts
          (frame (texts.to_string (build_json_from_map lib a)) ++ bytes)
          (before ++ b ∷ after)
        ≡ client lib texts bytes (before ++ a ∷ after)
  unfolding client
  client-item a b before after bytes r h n =
      read_bytes-frame (client_message lib texts) (texts.to_string (build_json_from_map lib a))
        bytes (before ++ b ∷ after) r.1
      ∙ ap (λ r. and_read r (λ t. read_bytes (client_message lib texts) bytes t []))
          (client_message-item a b before after r h n)

  abbrev pub IsRead : Sending D → Type 0
  IsRead (a, true) = Unit
  IsRead (a, false) = Readable texts (build_json_from_map lib a)

  -- The state in which the client goes on with the items behind `b`.
  regroup :
      (bytes : Text) (before : List (ItemMap D)) (b : ItemMap D) (bs cs : List (ItemMap D))
      → client lib texts bytes ((before ++ b ∷ []) ++ bs) ≡ reading ((before ++ b ∷ []) ++ cs) []
      → client lib texts bytes (before ++ b ∷ bs) ≡ reading (before ++ b ∷ cs) []
  regroup bytes before b bs cs h =
      ap (client lib texts bytes) (sym (append_assoc before (b ∷ []) bs))
      ∙ h
      ∙ ap (λ m. reading m []) (append_assoc before (b ∷ []) cs)

  Option-cases : (o : Option ℕ) → (o ≡ none) ⊎ ((k : ℕ) × (o ≡ some k))
  Option-cases none = inl refl
  Option-cases (some k) = inr (k, refl)

  client-behind :
      (sent : ℕ → Text → Option ℕ) (n : ℕ) (items : List (Sending D)) (before bs : List (ItemMap D))
      → Whole sent
      → All IsRead items
      → AllFit items bs
      → Apart before items
      → DistinctIds items
      → client lib texts (send_items lib texts sent n items).0 (before ++ bs)
        ≡ reading (before ++ received sent n items bs) []
  unfolding send_items client read_bytes
  client-behind sent n [] before [] w r h p q = refl
  client-behind sent n [] before (b ∷ bs) w r h p q = elim h [ ]
  client-behind sent n ((a, f) ∷ items) before [] w r h p q = elim h [ ]
  client-behind sent n ((a, true) ∷ items) before (b ∷ bs) w (r, rs) (h, hs) (p, ps) (q, qs) =
      regroup (send_items lib texts sent n items).0 before b bs (received sent n items bs) (
        client-behind sent n items (before ++ b ∷ []) bs w rs hs
          (Apart-snoc before b items ps
            (subst (λ k. All (λ (c : Sending D). k ≢ c.0.id) items) h.0 q))
          qs)
  client-behind sent n ((a, false) ∷ items) before (b ∷ bs) w (r, rs) (h, hs) (p, ps) (q, qs) =
      elim (Option-cases (sent n (framed a))) [
        | inl s ↦ rw s refl
        | inr (k, s) ↦
            rw (s, w n (framed a) k s, take-length (framed a))
              (client-item a b before bs (send_items lib texts sent (n + 1) items).0 r h p
                ∙ regroup (send_items lib texts sent (n + 1) items).0 before a bs
                    (received sent (n + 1) items bs)
                    (client-behind sent (n + 1) items (before ++ a ∷ []) bs w rs hs
                      (Apart-snoc before a items ps q) qs))
      ]

  -- One pass of the server over its items, read by a client whose items have the same layout: the
  -- client has the server's items that were sent, up to the first send that fails, and its own ones
  -- for those that are not to be sent; no byte is left over. Each send takes the whole message or
  -- fails, the ids of the items are distinct, and the messages that are sent are lines from which the
  -- objects are parsed again.
  pub client-send_items :
      (sent : ℕ → Text → Option ℕ) (n : ℕ) (items : List (Sending D)) (map : List (ItemMap D))
      → Whole sent
      → All IsRead items
      → AllFit items map
      → DistinctIds items
      → client lib texts (send_items lib texts sent n items).0 map
        ≡ reading (received sent n items map) []
  client-send_items sent n items map w r h q =
      client-behind sent n items [] map w r h (nothing items) q
    where
      nothing : (items : List (Sending D)) → Apart [] items
      nothing [] = tt
      nothing (a ∷ more) = (tt, nothing more)
