-- ===== src/Rpc/Connection/Transfer.antt =====
-- Packets that are sent one after another, with a change of keys between them, reach the other side's
-- handler in order.
use privmx_endpoint.Common.{
  two32, Result, ok, length, Bytes, ℕ, suc, ◌+◌, ◌<◌, ◌≡◌, refl, sym, ap, ◌∙◌, true, some, List, [],
  ◌∷◌, ◌++◌, append-nil, append_assoc, arith,
}
use mathlib.Core.Path.{subst}
use privmx_endpoint.Rpc.Ciphers.{Ciphers, IsSound}
use privmx_endpoint.Rpc.Connection.{
  Connection, initialized, fresh_state, change_cipher_spec_type, application_data_type,
}
use privmx_endpoint.Rpc.Connection.Reading.{Input, Handlers}
use privmx_endpoint.Rpc.Connection.Process.{
  Session, dispatch, process, on_header, after, header_length,
}
use privmx_endpoint.Rpc.Connection.Contents.{Reads, StandsAt}
use privmx_endpoint.Rpc.Connection.Delivery.{written, advanced, process-written}
use privmx_endpoint.Rpc.Connection.Actions.{
  Action, packet, new_keys, perform, perform_all, records, CanPerform, output-send,
  output-change_cipher_spec, perform_all-records,
}

-- The two sides hold the same keys and count alike.
pub record IsInStep (k reader : Connection) : Type 0 where
  pub same_state : reader.read_state ≡ k.write_state
  pub same_next : reader.next_read_state ≡ k.next_write_state

module _ {S W V : Type 0} (c : Ciphers) (v : IsSound c) (input : Input S) (rest : S → Bytes)
    (law : Reads input rest) (handlers : Handlers W V) (value : Bytes → V) (step : V → W → W)
    (decodes : (p : Bytes) → handlers.decode p ≡ ok (value p))
    (accepts : (x : V) (w : W) → handlers.application_handler x w ≡ (step x w, ok tt)) where
  -- The handler's world behind the packets, one after another.
  abbrev pub received : List Action → W → W
  received [] w = w
  received (packet p ∷ more) w = received more (step (value p) w)
  received (new_keys ∷ more) w = received more w

  dispatch_application :
      (s : Session S W) (p : Bytes)
      → dispatch c input handlers (record { content_type = application_data_type; content = p }) s
        ≡ (record s { world = step (value p) s.world }, ok tt)
  unfolding dispatch
  dispatch_application s p = rw (decodes p, accepts (value p) s.world) refl

  dispatch_change :
      (s : Session S W)
      → initialized s.connection.next_read_state ≡ true
      → dispatch c input handlers
          (record { content_type = change_cipher_spec_type; content = [] })
          s
        ≡ (
          record s {
            connection = record s.connection {
              read_state = s.connection.next_read_state;
              next_read_state = fresh_state [] [];
            };
          },
          ok tt,
        )
  unfolding dispatch
  dispatch_change s i = rw i refl

  -- The stream stands at the records of these actions, and other bytes behind them.
  abbrev pub Holds : Session S W → Connection → List Action → Bytes → Type 0
  Holds s k actions tail =
      StandsAt c v input rest law handlers s.stream (records c actions k ++ tail)

  received-packet :
      (s : Session S W) (k : Connection) (p : Bytes) (more : List Action) (tail : Bytes) (fuel : ℕ)
      → length p + 16 < two32
      → IsInStep k s.connection
      → Holds s k (packet p ∷ more) tail
      → (s' : Session S W) × (process c input handlers (suc fuel) s
          ≡ process c input handlers fuel s')
        × (s'.world ≡ step (value p) s.world)
        × IsInStep (perform c (packet p) k) s'.connection
        × Holds s' (perform c (packet p) k) more tail
  unfolding records perform after
  received-packet s k p more tail fuel fits same (e, begun) =
      let k' = perform c (packet p) k in
      let (s1, r, at1) =
        process-written c v input rest law handlers s application_data_type p
          (records c more k' ++ tail) fuel fits
          (
            e
                ∙ append_assoc (written c k.write_state application_data_type p) (records c more k')
                    tail
                ∙ ap (λ rs. written c rs application_data_type p ++ (records c more k' ++ tail))
                    (sym same.same_state),
            begun,
          ) in
      let t : Session S W = record s {
        stream = s1;
        connection = record s.connection { read_state = advanced s.connection.read_state };
      } in
      (
        record t { world = step (value p) s.world },
        r ∙ ap (after c input handlers (process c input handlers fuel)) (dispatch_application t p),
        refl,
        record {
          same_state =
              ap advanced same.same_state
              ∙ ap (λ (h : Connection). h.write_state)
                  (sym (output-send c p application_data_type k));
          same_next =
              same.same_next
              ∙ ap (λ (h : Connection). h.next_write_state)
                  (sym (output-send c p application_data_type k));
        },
        at1,
      )

  received-new_keys :
      (s : Session S W) (k : Connection) (more : List Action) (tail : Bytes) (fuel : ℕ)
      → initialized k.next_write_state ≡ true
      → IsInStep k s.connection
      → Holds s k (new_keys ∷ more) tail
      → (s' : Session S W) × (process c input handlers (suc fuel) s
          ≡ process c input handlers fuel s')
        × (s'.world ≡ s.world)
        × IsInStep (perform c new_keys k) s'.connection
        × Holds s' (perform c new_keys k) more tail
  unfolding records perform after
  received-new_keys s k more tail fuel i same (e, begun) =
      let k' = perform c new_keys k in
      let (s1, r, at1) =
        process-written c v input rest law handlers s change_cipher_spec_type []
          (records c more k' ++ tail) fuel (omega arith)
          (
            e
                ∙ append_assoc (written c k.write_state change_cipher_spec_type [])
                    (records c more k') tail
                ∙ ap (λ rs. written c rs change_cipher_spec_type [] ++ (records c more k' ++ tail))
                    (sym same.same_state),
            begun,
          ) in
      let t : Session S W = record s {
        stream = s1;
        connection = record s.connection { read_state = advanced s.connection.read_state };
      } in
      (
        record t {
          connection = record t.connection {
            read_state = t.connection.next_read_state;
            next_read_state = fresh_state [] [];
          };
        },
        r
            ∙ ap (after c input handlers (process c input handlers fuel))
                (dispatch_change t (ap initialized same.same_next ∙ i)),
        refl,
        record {
          same_state =
              same.same_next
              ∙ ap (λ (q : Connection × Result (Unit {0})). q.0.write_state)
                  (sym (output-change_cipher_spec c k i));
          same_next =
              ap (λ (q : Connection × Result (Unit {0})). q.0.next_write_state)
                (sym (output-change_cipher_spec c k i));
        },
        at1,
      )

  one_more :
      (more : List Action) (fuel : ℕ) (s : Session S W)
      → process c input handlers (suc (length more) + fuel) s
        ≡ process c input handlers (suc (length more + fuel)) s
  one_more more fuel s =
      ap (λ n. process c input handlers n s) {x = suc (length more) + fuel}
        {y = suc (length more + fuel)} (omega arith)

  -- The records of the actions, read one after another.
  pub process-records :
      (actions : List Action) (k : Connection) (s : Session S W) (tail : Bytes) (fuel : ℕ)
      → CanPerform c actions k
      → IsInStep k s.connection
      → Holds s k actions tail
      → (s' : Session S W) × (process c input handlers (length actions + fuel) s
          ≡ process c input handlers fuel s')
        × (s'.world ≡ received actions s.world)
        × IsInStep (perform_all c actions k) s'.connection
        × StandsAt c v input rest law handlers s'.stream tail
  unfolding perform_all records
  process-records [] k s tail fuel able same at = (
    s,
    ap (λ n. process c input handlers n s) {x = 0 + fuel} {y = fuel} (omega arith),
    refl,
    same,
    at,
  )
  process-records (packet p ∷ more) k s tail fuel (fits, able) same at =
      let (t, r, w, same', at') =
        received-packet s k p more tail (length more + fuel) fits same at in
      let (s', r', w', done, e) =
        process-records more (perform c (packet p) k) t tail fuel able same' at' in
      (s', one_more more fuel s ∙ r ∙ r', w' ∙ ap (received more) w, done, e)
  process-records (new_keys ∷ more) k s tail fuel (i, able) same at =
      let (t, r, w, same', at') = received-new_keys s k more tail (length more + fuel) i same at in
      let (s', r', w', done, e) =
        process-records more (perform c new_keys k) t tail fuel able same' at' in
      (s', one_more more fuel s ∙ r ∙ r', w' ∙ ap (received more) w, done, e)

  -- At the end of the stream the loop ends.
  process-ended :
      (s : Session S W)
      → StandsAt c v input rest law handlers s.stream []
      → (s' : Session S W) × (process c input handlers 1 s ≡ some (s', ok tt))
        × (s'.world ≡ s.world)
        × (s'.connection ≡ s.connection)
        × (rest s'.stream ≡ [])
  unfolding process on_header
  process-ended s (e, begun) =
      let (s1, r, e1) = law.ends s.stream (header_length c input handlers s.connection) e in
      (
        record s { stream = s1 },
        rw begun (ap (on_header c input handlers (process c input handlers 0) s) r),
        refl,
        refl,
        e1,
      )

  -- Where one side sends packets of application data and changes its keys, in any order, the other
  -- side, whose keys for reading are the ones that the first writes with, reads all of the output:
  -- within one round more than there are actions the loop of process returns, the handler has had
  -- every packet in the order sent, nothing of the stream is left, and the sides are in step
  -- again. The ciphers are sound, every packet is shorter than 2^32 - 16 bytes, is decoded and
  -- handled without an exception, keys are changed only where the next ones have been set, the
  -- output began empty, and the stream gives its bytes in order.
  pub process-perform_all :
      (actions : List Action) (k : Connection) (s : Session S W)
      → CanPerform c actions k
      → k.output ≡ []
      → IsInStep k s.connection
      → StandsAt c v input rest law handlers s.stream (perform_all c actions k).output
      → (s' : Session S W) × (process c input handlers (suc (length actions)) s ≡ some (s', ok tt))
        × (s'.world ≡ received actions s.world)
        × IsInStep (perform_all c actions k) s'.connection
        × (rest s'.stream ≡ [])
  process-perform_all actions k s able fresh same (e, begun) =
      let written_all =
        e
        ∙ perform_all-records c actions k able
        ∙ ap (λ o. o ++ records c actions k) fresh
        ∙ sym (append-nil (records c actions k)) in
      let (t, r, w, done, at) = process-records actions k s [] 1 able same (written_all, begun) in
      let (s', r', w', same', e') = process-ended t at in
      (
        s',
        ap (λ n. process c input handlers n s) {x = suc (length actions)} {y = length actions + 1}
              (omega arith)
            ∙ r
            ∙ r',
        w' ∙ w,
        subst (IsInStep (perform_all c actions k)) (sym same') done,
        e',
      )
