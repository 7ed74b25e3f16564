-- ===== src/Drivers/JetKvm/Exchange.antt =====
-- The machine after an exchange with its JetKVM (src/drivers/jetkvm.rs).
use kube_hardware_autoscaler.Base.{
  Bool, true, false, not, ◌≡◌, refl, subst, ◌⊎◌, inl, inr, Option, none, some, List, [], ◌∷◌, ◌++◌,
}
use kube_hardware_autoscaler.Crd.Texts.{DriverError}
use kube_hardware_autoscaler.Drivers.Driver.{Result, ok, err, ok-injective}
use kube_hardware_autoscaler.Drivers.JetKvm.{
  JetKvmExtension, Op, Command, command_for, Event, state, status, lost, acknowledged, other,
  await_state, acked, await_ack, publish, act, exchange,
}

-- What the extensions do to a machine that is on or off: the ATX power button toggles, a long press
-- cuts the power, and the DC extension switches it.
pub record Extension : Type 0 where
  pub react : Command → Bool → Bool
  pub toggles : (is_on : Bool) → react Command.short_press is_on ≡ not is_on
  pub cuts : react Command.long_press true ≡ false
  pub switches_on : react Command.dc_on false ≡ true
  pub switches_off : react Command.dc_off true ≡ false

abbrev pub requested : Op → Bool
requested Op.on = true
requested (Op.off force) = false

-- A command is for the machine's state: it brings it to the requested one, as doing nothing does
-- where there is none.
command_for-some :
    (x : Extension) (e : JetKvmExtension) (op : Op) (is_on : Bool) (c : Command)
    → command_for e op is_on ≡ ok (some c)
    → x.react c is_on ≡ requested op
unfolding command_for
command_for-some x e Op.on true c h = cc
command_for-some x JetKvmExtension.atx Op.on false c h = cc (x.toggles false)
command_for-some x JetKvmExtension.dc Op.on false c h = cc (x.switches_on)
command_for-some x e (Op.off force) false c h = cc
command_for-some x JetKvmExtension.atx (Op.off false) true c h = cc (x.toggles true)
command_for-some x JetKvmExtension.atx (Op.off true) true c h = cc (x.cuts)
command_for-some x JetKvmExtension.dc (Op.off false) true c h = cc
command_for-some x JetKvmExtension.dc (Op.off true) true c h = cc (x.switches_off)

command_for-none :
    (e : JetKvmExtension) (op : Op) (is_on : Bool)
    → command_for e op is_on ≡ ok none
    → is_on ≡ requested op
unfolding command_for
command_for-none e Op.on true h = refl
command_for-none JetKvmExtension.atx Op.on false h = cc
command_for-none JetKvmExtension.dc Op.on false h = cc
command_for-none e (Op.off force) false h = refl
command_for-none JetKvmExtension.atx (Op.off false) true h = cc
command_for-none JetKvmExtension.atx (Op.off true) true h = cc
command_for-none JetKvmExtension.dc (Op.off false) true h = cc
command_for-none JetKvmExtension.dc (Op.off true) true h = cc

command_for-needed :
    (e : JetKvmExtension) (op : Op) (is_on : Bool) (c : Command)
    → command_for e op is_on ≡ ok (some c)
    → is_on ≡ not (requested op)
unfolding command_for
command_for-needed e Op.on true c h = cc
command_for-needed e Op.on false c h = refl
command_for-needed e (Op.off force) false c h = cc
command_for-needed e (Op.off force) true c h = refl

-- What was published for a machine in a state: nothing where it is the requested one, and otherwise
-- one command, which brings the machine from this state to the requested one.
abbrev pub Published : (Command → Bool → Bool) → Bool → Op → List Command → Type 0
Published react is_on op cs =
    ((is_on ≡ requested op) × (cs ≡ []))
    ⊎ ((is_on ≡ not (requested op))
        × (c : Command) × (cs ≡ c ∷ [])
        × (react c is_on ≡ requested op))

acked-same : (b : Bool) (r : Result (Unit {0}) DriverError) (c : Bool) → acked b r ≡ ok c → b ≡ c
acked-same b (ok u) c h = ok-injective h
acked-same b (err e) c h = cc

publish-one :
    (p : Option DriverError) (c : Command) (is_on seen : Bool) (later : List Event)
    → (publish p c is_on later).outcome ≡ ok seen
    → ((publish p c is_on later).published ≡ c ∷ []) × (is_on ≡ seen)
publish-one (some e) c is_on seen later h = cc
publish-one none c is_on seen later h = (refl, acked-same is_on (await_ack later) seen h)

data CommandCases (r : Result (Option Command) DriverError) : Type 0 where
  none_needed : r ≡ ok none → CommandCases r
  needed : (c : Command) → r ≡ ok (some c) → CommandCases r
  refused : (e : DriverError) → r ≡ err e → CommandCases r

Command-cases : (r : Result (Option Command) DriverError) → CommandCases r
Command-cases (ok none) = none_needed refl
Command-cases (ok (some c)) = needed c refl
Command-cases (err e) = refused e refl

-- What `act` may do, by the command that the state asks for.
act-Published :
    (x : Extension) (e : JetKvmExtension) (op : Op) (p : Option DriverError) (is_on seen : Bool)
    (later : List Event)
    → (act e (some op) p is_on later).outcome ≡ ok seen
    → (is_on ≡ seen) × Published x.react is_on op (act e (some op) p is_on later).published
unfolding act
act-Published x e op p is_on seen later h = elim (Command-cases (command_for e op is_on)) [
  | none_needed k ↦
      let h' : ok is_on ≡ ok seen = rw (k, act) at h in
      rw (k, act) (ok-injective h', inl (command_for-none e op is_on k, refl))
  | needed c k ↦
      let h' : (publish p c is_on later).outcome ≡ ok seen = rw (k, act) at h in
      let (one, same) = publish-one p c is_on seen later h' in
      rw (k, act)
        (same, inr (command_for-needed e op is_on c k, c, one, command_for-some x e op is_on c k))
  | refused f k ↦ let h' : err f ≡ ok seen = rw (k, act) at h in cc
]

state_cases :
    (r : Result (Bool × List Event) DriverError)
    → ((e : DriverError) × (r ≡ err e)) ⊎ ((s : Bool) × (rest : List Event) × (r ≡ ok (s, rest)))
state_cases (err e) = inl (e, refl)
state_cases (ok (s, rest)) = inr (s, rest, refl)

-- One of the messages tells this state.
abbrev pub Told : Bool → List Event → Type 0
Told is_on [] = ⊥
Told is_on (e ∷ es) = (e ≡ state (some is_on)) ⊎ Told is_on es

await_state-Told :
    (events : List Event) (is_on : Bool) (rest : List Event)
    → await_state events ≡ ok (is_on, rest)
    → Told is_on events
unfolding await_state
await_state-Told [] is_on rest h = cc
await_state-Told (state (some b) ∷ es) is_on rest h = inl cc
await_state-Told (state none ∷ es) is_on rest h = cc
await_state-Told (status (some false) ∷ es) is_on rest h = cc
await_state-Told (status (some true) ∷ es) is_on rest h = inr (await_state-Told es is_on rest h)
await_state-Told (status none ∷ es) is_on rest h = inr (await_state-Told es is_on rest h)
await_state-Told (acknowledged ∷ es) is_on rest h = inr (await_state-Told es is_on rest h)
await_state-Told (other ∷ es) is_on rest h = inr (await_state-Told es is_on rest h)
await_state-Told (lost e ∷ es) is_on rest h = cc

-- Where an exchange succeeds, it returns the state that it read before it acted, which one of the
-- messages told. Where that is the requested one, nothing is published, so the toggling button is left
-- alone; otherwise exactly one command is, and it brings the machine to the requested state.
pub exchange-Requested :
    (x : Extension) (e : JetKvmExtension) (op : Op) (p : Option DriverError)
    (first later : List Event) (seen : Bool)
    → (exchange e (some op) p first later).outcome ≡ ok seen
    → Told seen first × Published x.react seen op (exchange e (some op) p first later).published
unfolding exchange
exchange-Requested x e op p first later seen h = elim (state_cases (await_state first)) [
  | inl (f, k) ↦ let h' : err f ≡ ok seen = rw (k, exchange) at h in cc
  | inr (s, rest, k) ↦
      let h' : (act e (some op) p s (rest ++ later)).outcome ≡ ok seen = rw (k, exchange) at h in
      let (same, done) = act-Published x e op p s seen (rest ++ later) h' in
      let read = await_state-Told first s rest k in
      (
        subst (λ v. Told v first) same read,
        subst (λ v. Published x.react v op (exchange e (some op) p first later).published) same
            (rw (k, exchange) done),
      )
]
