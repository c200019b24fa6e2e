-- ===== src/Alerts.antt =====
-- Alerts that fire once and resolve once (deploypro/engine/alerts.py), and the monitor's rule for
-- when to fire one (`Monitor._record` of deploypro/engine/monitor.py). Sending is recorded in `sent`.
pub mod Strikes
mod Tests
use deploygenus.Dict.{lookup, removed, put}
use deploygenus.Text.{Text}
use deploygenus.Base.{
  leb, if◌then◌else◌, ℕ, ◌+◌, Bool, true, false, Option, none, some, List, [], ◌∷◌, ◌++◌,
}

pub data Level : Type 0 where
  critical resolved : Level

-- What `notify.send` is given.
pub record Notice : Type 0 where
  pub title : Text
  pub detail : Text
  pub level : Level
  pub fields : List (Text × Text)

-- `Alerts._firing` and `Monitor._strikes`, with what has been sent.
pub record Watch : Type 0 where
  pub firing : List (Text × Text)
  pub strikes : List (Text × ℕ)
  pub sent : List Notice

abbrev pub quiet : Watch
quiet = record { firing = []; strikes = []; sent = [] }

abbrev holds : {A : Type 0} → Option A → Bool
holds none = false
holds (some a) = true

pub is_firing : Text → Watch → Bool
unfolding lookup
is_firing key w = holds (lookup key w.firing)

pub fire : Text → Text → Text → List (Text × Text) → Watch → Bool × Watch
unfolding is_firing put
fire key title detail fields w = if is_firing key w then (false, w) else (
  true,
  record w {
    firing = put key title w.firing;
    sent =
        w.sent
        ++ (record { title = title; detail = detail; level = critical; fields = fields } ∷ []);
  },
)

pub resolve : Text → Text → Text → List (Text × Text) → Watch → Bool × Watch
unfolding is_firing removed
resolve key title detail fields w =
    if is_firing key w
    then (
      true,
      record w {
        firing = removed key w.firing;
        sent =
            w.sent
            ++ (record { title = title; detail = detail; level = resolved; fields = fields } ∷ []);
      },
    )
    else (false, w)

abbrev pub needed_strikes : ℕ
needed_strikes = 2

-- The arguments of one `_record`.
pub record Observation : Type 0 where
  pub key : Text
  pub problem : Option Text
  pub down_title : Text
  pub down_detail : Text
  pub up_title : Text
  pub fields : List (Text × Text)

abbrev or_zero : Option ℕ → ℕ
or_zero none = 0
or_zero (some n) = n

pub strikes_of : Text → Watch → ℕ
unfolding lookup
strikes_of key w = or_zero (lookup key w.strikes)

struck : Text → Watch → Watch
unfolding strikes_of put
struck key w = record w { strikes = put key (strikes_of key w + 1) w.strikes }

cleared : Text → Watch → Watch
unfolding removed
cleared key w = record w { strikes = removed key w.strikes }

react : Option Text → Observation → Watch → ℕ × Watch
react none o w = (0, (resolve o.key o.up_title [] o.fields (cleared o.key w)).1)
react (some _) o w =
    let struck_once = struck o.key w in
    (
      1,
      if leb needed_strikes (strikes_of o.key struck_once)
          then (fire o.key o.down_title o.down_detail o.fields struck_once).1
          else struck_once,
    )

pub observe : Observation → Watch → ℕ × Watch
unfolding react
observe o w = react o.problem o w

-- The monitor after its observations, the latest first.
abbrev pub observe_all : List Observation → Watch
observe_all [] = quiet
observe_all (o ∷ os) = (observe o (observe_all os)).1
