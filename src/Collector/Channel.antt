-- ===== src/Collector/Channel.antt =====
-- `ChannelAnalyzerSink` of crates/tlapix-collector/src/buffer.rs: the sink over a channel of tokio,
-- which is a parameter.
use mathlib.Core.List.{append-nil, append_assoc}
use tlapix.Common.{
  ◌≡◌, inl, inr, refl, ap, sym, ap₂, ◌∙◌, Bool, true, false, not, [], ◌∷◌, ◌++◌, if◌then◌else◌,
  Result, ok, err, Bool-cases, arith,
}
use tlapix.Common.Text.{is_empty}
use tlapix.Types.{CertificateMetadata}
use tlapix.Collector.Buffer.{Records, AnalyzerSink}
use tlapix.Collector.Buffer.Runs.{OrderedSink}

-- The sender of a channel: whether a record was accepted, and whether the receiver is gone.
pub record Channel (C : Type 0) : Type 0 where
  pub send : CertificateMetadata → C → Bool × C
  pub is_closed : C → Bool

-- What tokio documents: an accepted record is queued behind the others; a send fails only because the
-- receiver is gone, and then every later one fails.
pub record ChannelLaws {C : Type 0} (channel : Channel C) : Type 0 where
  pub queue : C → Records
  pub accepts :
      (r : CertificateMetadata) (c : C)
      → (channel.send r c).0 ≡ true
      → queue (channel.send r c).1 ≡ queue c ++ r ∷ []
  pub refuses :
      (r : CertificateMetadata) (c : C)
      → (channel.send r c).0 ≡ false
      → (queue (channel.send r c).1 ≡ queue c) × (channel.is_closed (channel.send r c).1 ≡ true)
  pub stays_closed :
      (r : CertificateMetadata) (c : C) → channel.is_closed c ≡ true → (channel.send r c).0 ≡ false

module _ {C : Type 0} (channel : Channel C) where
  -- `for record in records`, with the records that failed so far.
  unfoldable pub send_loop : Records → Records → C → Records × C
  send_loop [] failed c = (failed, c)
  send_loop (r ∷ records) failed c =
      let (sent, c') = channel.send r c in
      send_loop records (if sent then failed else failed ++ r ∷ []) c'

  abbrev verdict : Records × C → Result Records (Unit {0}) × C
  verdict (failed, c) = (if is_empty failed then ok tt else err failed, c)

  unfoldable pub send_batch : Records → C → Result Records (Unit {0}) × C
  unfolding send_loop is_empty
  send_batch records c = verdict (send_loop records [] c)

  abbrev pub channel_sink : AnalyzerSink C
  channel_sink = record { send_batch = send_batch; is_available = λ c. not (channel.is_closed c) }

module _ {C : Type 0} (channel : Channel C) (laws : ChannelLaws channel) where
  -- A closed channel takes nothing.
  send_loop-closed :
      (records failed : Records) (c : C)
      → channel.is_closed c ≡ true
      → ((send_loop channel records failed c).0 ≡ failed ++ records)
        × (laws.queue (send_loop channel records failed c).1 ≡ laws.queue c)
  unfolding send_loop
  send_loop-closed [] failed c closed = (sym (append-nil failed), refl)
  send_loop-closed (r ∷ records) failed c closed =
      let refused = laws.stays_closed r c closed in
      let (queued, closed') = laws.refuses r c refused in
      let (rest, queued') =
        send_loop-closed records (failed ++ r ∷ []) (channel.send r c).1 closed' in
      rw (send_loop, refused) (rest ∙ append_assoc failed (r ∷ []) records, queued' ∙ queued)

  -- What was queued and then what failed is what was queued before and then the batch.
  send_loop-order :
      (records : Records) (c : C)
      → laws.queue (send_loop channel records [] c).1 ++ (send_loop channel records [] c).0
        ≡ laws.queue c ++ records
  unfolding send_loop
  send_loop-order [] c = refl
  send_loop-order (r ∷ records) c = elim (Bool-cases (channel.send r c).0) [
    | inl accepted ↦
        rw (send_loop, accepted)
          (send_loop-order records (channel.send r c).1
            ∙ ap (λ q. q ++ records) (laws.accepts r c accepted)
            ∙ append_assoc (laws.queue c) (r ∷ []) records)
    | inr refused ↦
        let (queued, closed) = laws.refuses r c refused in
        let (rest, queued') = send_loop-closed records (r ∷ []) (channel.send r c).1 closed in
        rw (send_loop, refused) (ap₂ ◌++◌ (queued' ∙ queued) rest)
  ]

  verdict-ok :
      (p : Records × C) (c' : C) → verdict channel p ≡ (ok tt, c') → (p.0 ≡ []) × (p.1 ≡ c')
  unfolding is_empty
  verdict-ok ([], c) c' e = (refl, ap (λ q. q.1) e)
  verdict-ok (r ∷ rs, c) c' e = ground arith

  verdict-err :
      (p : Records × C) (rest : Records) (c' : C)
      → verdict channel p ≡ (err rest, c')
      → p ≡ (rest, c')
  unfolding is_empty
  verdict-err ([], c) rest c' e = ground arith
  verdict-err (r ∷ rs, c) rest c' e = ground arith

  pub send_batch-ok :
      (records : Records) (c c' : C)
      → send_batch channel records c ≡ (ok tt, c')
      → laws.queue c' ≡ laws.queue c ++ records
  unfolding send_batch
  send_batch-ok records c c' e =
      let (none_failed, same) = verdict-ok (send_loop channel records [] c) c' e in
      sym (append-nil (laws.queue c'))
      ∙ ap₂ (λ x f. laws.queue x ++ f) (sym same) (sym none_failed)
      ∙ send_loop-order records c

  pub send_batch-err :
      (records rest : Records) (c c' : C)
      → send_batch channel records c ≡ (err rest, c')
      → laws.queue c' ++ rest ≡ laws.queue c ++ records
  unfolding send_batch
  send_batch-err records rest c c' e =
      ap (λ p. laws.queue p.1 ++ p.0) (sym (verdict-err (send_loop channel records [] c) rest c' e))
      ∙ send_loop-order records c

  -- The sink over a channel takes records in order and returns exactly those that it did not queue.
  abbrev pub channel_sink-OrderedSink : OrderedSink (channel_sink channel)
  channel_sink-OrderedSink = record {
    received = laws.queue;
    delivers = send_batch-ok;
    returns = send_batch-err;
  }
