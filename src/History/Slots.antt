-- ===== src/History/Slots.antt =====
-- A property that reads only the state of the transaction and its slot is kept by all calls that
-- neither open nor end a transaction.
use rapsqlite.Prelude.{ℕ, ◌≡◌, refl, Option, none, some}
use rapsqlite.State.{Connection, Env, drop_held}
use rapsqlite.Pool.Steady.{Steady, HookKeeps}
use rapsqlite.Pool.Callback.{CallbackKeeps, ensure_callback_connection-Keeps}
use rapsqlite.Callbacks.{release}
use rapsqlite.Callbacks.Keeping.{CallsKeep}
use rapsqlite.Changes.Keeping.{temporary-Keeps}
use rapsqlite.History.Plain.{PlainKeeps}

pub record SlotsOnly (P : Connection → Type 0) : Type 0 where
  pub same :
      (c d : Connection)
      → d.transaction_state ≡ c.transaction_state
      → d.transaction_connection ≡ c.transaction_connection
      → P c
      → P d

module _ {P : Connection → Type 0} (k : SlotsOnly P) where
  pub slots_steady : Steady P
  slots_steady = record {
    connects = λ c size secs s. k.same c _ refl refl s;
    executes = λ c target sql params s. k.same c _ refl refl s;
    pools = λ c p s. k.same c _ refl refl s;
  }

  pub slots_callback : CallbackKeeps P
  slots_callback = record {
    steady = slots_steady;
    acquires = λ c p s. k.same c _ refl refl s;
    acquired = λ c h s. k.same c _ refl refl s;
    fills = λ c h s. k.same c _ refl refl s;
  }

  slots_calls : CallsKeep P
  slots_calls = record {
    locks = λ c h s. k.same c _ refl refl s;
    calls_c = λ c h call s. k.same c _ refl refl s;
  }

  drop_held-slots :
      (held : Option ℕ) (c : Connection)
      → P c
      → P (record (drop_held held c) { callback_connection = none })
  drop_held-slots none c s = k.same c _ refl refl s
  drop_held-slots (some h) c s = k.same c _ refl refl s

  release-slots : (c : Connection) → P c → P (release c)
  release-slots c s = drop_held-slots c.callback_connection c s

pub slots_plain :
    {P : Connection → Type 0} (env : Env) → SlotsOnly P → HookKeeps P env → PlainKeeps P env
slots_plain env k hook = record {
  queries = record {
    steady = slots_steady k;
    callback = ensure_callback_connection-Keeps env (slots_callback k);
    hook = hook;
    fetches = λ c target query params s. k.same c _ refl refl s;
    tracks = λ c cache s. k.same c _ refl refl s;
    counts = λ c row_id changes s. k.same c _ refl refl s;
  };
  extensions = record {
    ensures = ensure_callback_connection-Keeps env (slots_callback k);
    calls = slots_calls k;
    enables = λ c b s. k.same c _ refl refl s;
    functions = λ c fs s. k.same c _ refl refl s;
    traces = λ c f s. k.same c _ refl refl s;
    authorizes = λ c f s. k.same c _ refl refl s;
    progresses = λ c f s. k.same c _ refl refl s;
    releases = release-slots k;
  };
  counting = record {
    steady = slots_steady k;
    ensures = ensure_callback_connection-Keeps env (slots_callback k);
    calls = slots_calls k;
    temporary = λ p.
        temporary-Keeps env (slots_callback k) p (slots_calls k) (λ c h s. k.same c _ refl refl s);
  };
  stores = λ c pragmas s. k.same c _ refl refl s;
}
