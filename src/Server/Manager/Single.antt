-- ===== src/Server/Manager/Single.antt =====
-- The registry with the real ServerTask, whose getID is 0.
use ugly_ff.Base.{ℕ, ◌≡◌, refl, ap, ◌⊎◌, inl, inr, Bool, List, [], ◌∷◌}
use ugly_ff.Server.{ServerTask, get_id, get_type, get_online_num, task_response_other}
use ugly_ff.Server.Manager.{Methods, Manager, new_manager, find, erase, unique_add, unique_remove}
use ugly_ff.Server.Manager.Registry.{Reg, enters, leaves, run}

-- a ServerTask's methods, over what its sendCmd does
unfoldable pub server_methods : (List ℕ → ServerTask → Bool × ServerTask) → Methods ServerTask
server_methods send = record {
  get_id = get_id;
  get_type = get_type;
  get_online_num = get_online_num;
  send_cmd = send;
  response_other = task_response_other;
}

-- nothing, or one task under the number 0
abbrev pub Single : List (ℕ × ℕ) → Type 0
Single l = (l ≡ []) ⊎ ((p : ℕ) × (l ≡ (0, p) ∷ []))

module _ (send : List ℕ → ServerTask → Bool × ServerTask) where
  unique_add-Single :
      (p : ℕ) (m : Manager ServerTask)
      → Single m.unique_container
      → Single (unique_add (server_methods send) p m).1.unique_container
  unfolding unique_add find server_methods get_id
  unique_add-Single p m (inl e) = inr (p, rw e refl)
  unique_add-Single p m (inr (q, e)) = inr (q, rw (unique_add, e) e)

  unique_remove-Single :
      (p : ℕ) (m : Manager ServerTask)
      → Single m.unique_container
      → Single (unique_remove (server_methods send) p m).1.unique_container
  unfolding unique_remove erase server_methods get_id
  unique_remove-Single p m (inl e) = inl (ap (erase 0) e)
  unique_remove-Single p m (inr (q, e)) = inl (ap (erase 0) e)

  run-Single-from :
      (ops : List Reg) (m : Manager ServerTask)
      → Single m.unique_container
      → Single (run (server_methods send) ops m).unique_container
  unfolding run
  run-Single-from [] m s = s
  run-Single-from (enters p ∷ ops) m s = run-Single-from ops _ (unique_add-Single p m s)
  run-Single-from (leaves p ∷ ops) m s = run-Single-from ops _ (unique_remove-Single p m s)

-- After any calls of uniqueAdd and uniqueRemove with ServerTasks, the map holds at most one of them,
-- under the number 0: no second server can be registered while one is.
pub run-Single :
    (send : List ℕ → ServerTask → Bool × ServerTask) (ops : List Reg) (store : ℕ → ServerTask)
    → Single (run (server_methods send) ops (new_manager store)).unique_container
unfolding new_manager
run-Single send ops store = run-Single-from send ops (new_manager store) (inl refl)
