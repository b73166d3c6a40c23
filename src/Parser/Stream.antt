-- ===== src/Parser/Stream.antt =====
-- The result of the parser does not depend on how the stream is cut into chunks and batches.
use counter_drone_server.Base.{
  ℕ, take, take-length, ◌≡◌, refl, sym, ap, ◌∙◌, List, [], ◌∷◌, ◌++◌, Outcome, ok, fault,
  out_of_fuel, >>=-eq-ok, ◌>>=◌, length, append-nil, append_assoc,
}
use counter_drone_server.Packet.{BytesArray}
use counter_drone_server.Parser.{
  Machine, enough_rounds, SensorDataParser, erase_processed, process_accumulated_data,
  insert_chunks, process_batch, process_loop,
}
use counter_drone_server.Parser.Deserialize.{View}
use counter_drone_server.Parser.Kept.{loop-Kept}
use counter_drone_server.Parser.Chunks.{run, loop_resumes}

-- A parser with more bytes behind those that it has accumulated.
abbrev pub receive : BytesArray → SensorDataParser → SensorDataParser
receive b p = record p { accumulated_data = p.accumulated_data ++ b }

pub process_lem :
    (p : SensorDataParser)
    → process_accumulated_data p
      ≡ (run p.accumulated_data p.machine >>= λ r. ok (erase_processed p.accumulated_data r))
unfolding process_accumulated_data
process_lem p = refl

-- What a run leaves is what is accumulated for the next one.
pub process-ok :
    (p : SensorDataParser) (w : View) (n : Machine)
    → run p.accumulated_data p.machine ≡ ok (w, n)
    → process_accumulated_data p ≡ ok (record { accumulated_data = w; machine = n })
unfolding process_accumulated_data
process-ok p w n h = rw h (λ i. ok (record {
  accumulated_data =
      loop-Kept (enough_rounds (length p.accumulated_data)) p.accumulated_data p.machine w n h i;
  machine = n;
}))

same_run :
    (p q : SensorDataParser)
    → run p.accumulated_data p.machine ≡ run q.accumulated_data q.machine
    → process_accumulated_data p ≡ process_accumulated_data q
same_run p q h = by_outcome (run q.accumulated_data q.machine) h refl
  where
    by_outcome :
        (o : Outcome (View × Machine))
        → run p.accumulated_data p.machine ≡ o
        → run q.accumulated_data q.machine ≡ o
        → process_accumulated_data p ≡ process_accumulated_data q
    by_outcome (ok (w, n)) hp hq = process-ok p w n hp ∙ sym (process-ok q w n hq)
    by_outcome fault hp hq = unfold process_accumulated_data in rw (hp, hq) refl
    by_outcome out_of_fuel hp hq = unfold process_accumulated_data in rw (hp, hq) refl

-- Two batches processed one after the other have the result of one batch that holds both, unless
-- the first meets undefined behaviour.
process-receive :
    (p q : SensorDataParser) (b : BytesArray)
    → process_accumulated_data p ≡ ok q
    → process_accumulated_data (receive b q) ≡ process_accumulated_data (receive b p)
process-receive p q b h = finish (
    >>=-eq-ok (run p.accumulated_data p.machine) (λ r. ok (erase_processed p.accumulated_data r))
      (sym (process_lem p) ∙ h))
  where
    finish :
        ((r : View × Machine) × (run p.accumulated_data p.machine ≡ ok r)
          × (ok (erase_processed p.accumulated_data r) ≡ ok q))
        → process_accumulated_data (receive b q) ≡ process_accumulated_data (receive b p)
    finish ((w, n), ran, kept) =
        let left : SensorDataParser = record { accumulated_data = w; machine = n } in
        let e : left ≡ q = cc (process-ok p w n ran) in
        ap (λ (x : SensorDataParser). process_accumulated_data (receive b x)) (sym e)
        ∙ sym (
            same_run (receive b p) (receive b left) (
              loop_resumes b (enough_rounds (length p.accumulated_data)) p.accumulated_data
                p.machine w n ran))

-- The bytes of a batch, and of a run of batches, in order.
abbrev pub bytes_of : List BytesArray → BytesArray
bytes_of [] = []
bytes_of (chunk ∷ chunks) = chunk ++ bytes_of chunks

abbrev pub stream_of : List (List BytesArray) → BytesArray
stream_of [] = []
stream_of (batch ∷ batches) = bytes_of batch ++ stream_of batches

pub receive_twice :
    (x y : BytesArray) (p : SensorDataParser) → receive y (receive x p) ≡ receive (x ++ y) p
receive_twice x y p i = record p { accumulated_data = append_assoc p.accumulated_data x y i }

insert_chunks_lem :
    (chunks : List BytesArray) (p : SensorDataParser)
    → insert_chunks chunks p ≡ receive (bytes_of chunks) p
unfolding insert_chunks
insert_chunks_lem [] p = sym (λ i. record p { accumulated_data = append-nil p.accumulated_data i })
insert_chunks_lem (chunk ∷ chunks) p =
    insert_chunks_lem chunks (receive chunk p) ∙ receive_twice chunk (bytes_of chunks) p

pub process_batch_lem :
    (chunks : List BytesArray) (p : SensorDataParser)
    → process_batch chunks p ≡ process_accumulated_data (receive (bytes_of chunks) p)
unfolding process_batch
process_batch_lem chunks p = ap process_accumulated_data (insert_chunks_lem chunks p)

pub process_loop_inv :
    (batch : List BytesArray) (batches : List (List BytesArray)) (p q : SensorDataParser)
    → process_loop (batch ∷ batches) p ≡ ok q
    → (r : SensorDataParser) × (process_accumulated_data (receive (bytes_of batch) p) ≡ ok r)
      × (process_loop batches r ≡ ok q)
unfolding process_loop
process_loop_inv batch batches p q h =
    let (r, e, rest) = >>=-eq-ok (process_batch batch p) (process_loop batches) h in
    (r, sym (process_batch_lem batch p) ∙ e, rest)

-- However the stream is cut into chunks and the chunks into batches, a run of the parser over at
-- least one batch that meets no undefined behaviour ends in the parser that one run over all the
-- bytes at once gives: the same packets, the same counters and the same bytes left over.
pub process_loop-stream :
    (batch : List BytesArray) (batches : List (List BytesArray)) (p q : SensorDataParser)
    → process_loop (batch ∷ batches) p ≡ ok q
    → process_accumulated_data (receive (stream_of (batch ∷ batches)) p) ≡ ok q
process_loop-stream batch [] p q h = finish (process_loop_inv batch [] p q h)
  where
    finish :
        ((r : SensorDataParser) × (process_accumulated_data (receive (bytes_of batch) p) ≡ ok r)
          × (process_loop [] r ≡ ok q))
        → process_accumulated_data (receive (bytes_of batch ++ []) p) ≡ ok q
    finish (r, e, rest) =
        ap (λ b. process_accumulated_data (receive b p)) (append-nil (bytes_of batch))
        ∙ e
        ∙ (unfold process_loop in rest)
process_loop-stream batch (next ∷ batches) p q h =
    finish (process_loop-stream next batches) (process_loop_inv batch (next ∷ batches) p q h)
  where
    later : BytesArray
    later = stream_of (next ∷ batches)

    finish :
        ((r s : SensorDataParser)
          → process_loop (next ∷ batches) r ≡ ok s
          → process_accumulated_data (receive later r) ≡ ok s)
        → ((r : SensorDataParser) × (process_accumulated_data (receive (bytes_of batch) p) ≡ ok r)
            × (process_loop (next ∷ batches) r ≡ ok q))
        → process_accumulated_data (receive (bytes_of batch ++ later) p) ≡ ok q
    finish ih (r, e, rest) =
        ap process_accumulated_data (sym (receive_twice (bytes_of batch) later p))
        ∙ sym (process-receive (receive (bytes_of batch) p) r later e)
        ∙ ih r q rest

-- If a run over every prefix of the bytes ahead meets no undefined behaviour, neither do the
-- batches that they are cut into, and they end where one run over all of them ends.
pub process_loop-prefixes :
    (all done : BytesArray) (batches : List (List BytesArray)) (p q : SensorDataParser)
    → ((k : ℕ)
        → (r : SensorDataParser) × (process_accumulated_data (receive (take k all) p) ≡ ok r))
    → all ≡ done ++ stream_of batches
    → process_accumulated_data (receive done p) ≡ ok q
    → (r : SensorDataParser) × (process_loop batches q ≡ ok r)
      × (process_accumulated_data (receive all p) ≡ ok r)
unfolding process_loop
process_loop-prefixes all done [] p q fine split e =
    (q, refl, ap (λ b. process_accumulated_data (receive b p)) (split ∙ append-nil done) ∙ e)
process_loop-prefixes all done (batch ∷ batches) p q fine split e =
    let more : BytesArray = done ++ bytes_of batch in
    let split' : all ≡ more ++ stream_of batches =
      split ∙ sym (append_assoc done (bytes_of batch) (stream_of batches)) in
    let (r, here) = fine (length more) in
    let prefix : take (length more) all ≡ more =
      ap (λ (b : BytesArray). take (length more) b) split'
      ∙ take-length (length more) more (stream_of batches) refl in
    let first : process_accumulated_data (receive more p) ≡ ok r =
      ap (λ b. process_accumulated_data (receive b p)) (sym prefix) ∙ here in
    let next : process_batch batch q ≡ ok r =
      process_batch_lem batch q
      ∙ process-receive (receive done p) q (bytes_of batch) e
      ∙ ap process_accumulated_data (receive_twice done (bytes_of batch) p)
      ∙ first in
    let (s, rest, whole) = process_loop-prefixes all more batches p r fine split' first in
    (s, rw next rest, whole)
