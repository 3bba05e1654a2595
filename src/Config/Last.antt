-- ===== src/Config/Last.antt =====
-- What becomes of the last device of a configuration, over `rfAddDevice`.
use rf_gateway.Base.{
  ℕ, ◌+◌, ◌≡◌, ◌≢◌, refl, ap, ◌∙◌, true, false, Bool-cases, inl, inr, Option, none, some, List,
  arith, ◌==◌, if◌then◌else◌, Returns, returns, Returns-bind, Ptr, null, Points, Points-write,
  Points-write_ne, modify-ok, write, write-write, length,
}
use rf_gateway.Checksum.{address_of}
use rf_gateway.LinkedList
use rf_gateway.Links.{Cells}
use rf_gateway.HashMap.View.{Pair, IsMap, holds, value_of}
use rf_gateway.Rf.{Rf, Device, in_devices}
use rf_gateway.Rf.Enqueue.Devices.{DeviceAdded, add_device-DeviceAdded}
use rf_gateway.Config.{Walk, Grant, next_grant, walk, flush, change, add_at, max_iface_len}
use rf_gateway.Config.Tokens.{Token}
use rf_gateway.Config.Settings.{Setting}
use rf_gateway.Config.Object.{
  Spells, walk_after, device_after, last_other, walk-Spells, walk_after-kept,
}

-- A device as it is given to `rfAddDevice`.
abbrev pub readied : Grant → Device → Device
readied g d = record d { ctr = 0; packet_queue = LinkedList.create g.queue }

-- A device that the map has under the address of `d` is live, and is not the one at `p`.
abbrev pub Replaces : Rf → Cells Pair → Ptr → Device → Type 0
Replaces st xs p d =
    holds (address_of d.sn) xs ≡ true
    → (o : Device) × Points st.devices (value_of (address_of d.sn) xs) o
      × (value_of (address_of d.sn) xs ≢ p)

-- The state in front of `rfAddDevice`.
abbrev pub ready_at : Rf → Grant → Ptr → Device → Rf
ready_at st g p d = record st { devices = write st.devices p (some (readied g d)) }

module _ (st : Rf) {xs : Cells Pair} (p : Ptr) (d : Device) (g : Grant)
    (is : IsMap st.entries st.map xs) (pd : Points st.devices p d)
    (unused : g.entry ≢ null → st.entries g.entry ≡ none) (live : Replaces st xs p d) where
  add_at-DeviceAdded :
      Returns
        (λ _ st'. DeviceAdded (ready_at st g p d) xs g.entry p (readied g d) 0 st')
        (add_at g (some p) (ready_at st g p d))
  unfolding add_at
  add_at-DeviceAdded =
      Returns-bind
        (add_device-DeviceAdded (ready_at st g p d) g.entry g.table p (readied g d) is
          (Points-write st.devices (readied g d) pd.ne_null) unused
          λ hit.
            let (o, at, apart) = live hit in
            (o, Points-write_ne (some (readied g d)) at apart, apart))
        λ r st' added.
          returns
            (record { result = refl; map = added.map; devices = added.devices; sent = added.sent })

  -- `flush` on the only device that is left.
  flush-DeviceAdded :
      (w : Walk)
      → w.rd ≡ some p
      → w.indev ≡ 1
      → next_grant w.grants ≡ g
      → Returns
          (λ w' st'. DeviceAdded (ready_at st g p d) xs g.entry p (readied g d) 0 st')
          (flush w st)
  unfolding flush change in_devices
  flush-DeviceAdded w rd one_left granted =
      let counted : Device = record d { ctr = 0 } in
      rw
        (
          rd,
          granted,
          modify-ok pd,
          modify-ok (Points-write st.devices counted pd.ne_null),
          write-write st.devices p (some counted) (some (readied g d)),
          one_left,
        )
        (Returns-bind add_at-DeviceAdded λ _ st' added. returns added)

-- The walk over the settings of the last device, up to the end of the text, when one device is still
-- to come, with memory for the text of each key, where each key decodes, and with an interface buffer
-- of the declared length: it ends well, and the device gets its settings. Only if the last token of
-- the text is no part of a known pair, the device is given to `rfAddDevice`, with counter 0 and what
-- `list_create` gives as its queue, null if that has no memory; otherwise it stays out of the map, and
-- nothing but the device itself has changed. An address for an entry is unused, and a device that the
-- map has under the new address is live and is not the new one.
pub walk-LastDevice :
    (decode : List ℕ → Option (List ℕ)) (gw : Ptr) (config : List ℕ) (tokens : List Token) (i : ℕ)
    {ss : List Setting} (w : Walk) (st : Rf) {xs : Cells Pair} (p : Ptr) (d : Device)
    → Spells decode config tokens i ss
    → w.rd ≡ some p
    → w.indev ≡ 1
    → length w.interface ≡ max_iface_len
    → IsMap st.entries st.map xs
    → Points st.devices p d
    → ((next_grant w.grants).entry ≢ null → st.entries (next_grant w.grants).entry ≡ none)
    → Replaces st xs p (device_after decode ss d)
    → Returns
        (λ w' st'.
          let named : Rf = record st {
            devices = write st.devices p (some (device_after decode ss d));
          } in
          if last_other ss
          then DeviceAdded
              (ready_at named (next_grant w.grants) p (device_after decode ss d))
              xs
              (next_grant w.grants).entry
              p
              (readied (next_grant w.grants) (device_after decode ss d))
              0
              st'
          else st' ≡ named)
        (walk decode true gw config tokens (length tokens + 1) i w st)
walk-LastDevice decode gw config tokens i {ss} w st p d sp rd one_left wide is pd unused live =
    let d' = device_after decode ss d in
    let named : Rf = record st { devices = write st.devices p (some d') } in
    let some_left : (w.indev == 0) ≡ false = ground arith in
    let (rd', indev', grants') = walk_after-kept ss w in
    rw
      (
        walk-Spells decode gw config tokens p (length tokens + 1) i w st d sp (omega arith) rd pd
            wide,
        some_left,
      )
      (elim (Bool-cases (last_other ss)) [
        | inl other_last ↦ rw other_last (
            flush-DeviceAdded named p d' (next_grant w.grants) is
              (Points-write st.devices d' pd.ne_null) unused
              (λ hit.
                let (o, at, apart) = live hit in (o, Points-write_ne (some d') at apart, apart))
              (walk_after ss w) (rd' ∙ rd) (indev' ∙ one_left) (ap next_grant grants'))
        | inr pair_last ↦ rw pair_last (returns refl)
      ])
