-- ===== src/Stdio/Calls.antt =====
-- The calls of a `Transport` of internal/taskstdio: the critical sections of transport.go and
-- handler.go on the tables behind its mutex.
use lutra.Prelude.{
  ℕ, ◌+◌, ◌%◌, ◌^◌, Bool, true, false, List, [], ◌∷◌, ◌++◌, Option, none, some, if◌then◌else◌,
  is_some,
}
use lutra.Prelude.Map.{Map, lookup, insert, delete}
use lutra.Prelude.Results.{Error, Result, ok, err}
use lutra.Stdio.Receive.{Frame}

-- A call object, which the goroutines of its call keep also when it is in no table.
pub record CallObject : Type 0 where
  pub queue : List Frame
  pub is_done : Bool

-- `calls` takes an identifier, "g" and the number, to the number of its object.
pub record Transport : Type 0 where
  pub objects : Map CallObject
  pub created : ℕ
  pub calls : Map ℕ
  pub incoming : Map Bool  -- whether its context is canceled
  pub next : ℕ
  pub failure : Option Error

-- `close` of a call, any number of times.
abbrev pub close_object : Option CallObject → ℕ → Map CallObject → Map CallObject
close_object none object objects = objects
close_object (some c) object objects = insert object (record c { is_done = true }) objects

abbrev pub close_call : ℕ → Map CallObject → Map CallObject
close_call object objects = close_object (lookup object objects) object objects

abbrev pub new_call : CallObject
new_call = record { queue = []; is_done = false }

abbrev pub next_of : Transport → ℕ
next_of t = (t.next + 1) % 2 ^ 64

-- The critical section of `Do`.
abbrev pub add_call : Transport → Transport
add_call t = record t {
  objects = insert t.created new_call t.objects;
  created = t.created + 1;
  calls = insert (next_of t) t.created t.calls;
  next = next_of t;
}

abbrev pub registered : Option Error → Transport → Transport × Result ℕ
registered none t = (add_call t, ok (next_of t))
registered (some e) t = (t, err e)

unfoldable pub register : Transport → Transport × Result ℕ
register t = registered t.failure t

abbrev pub close_found : Option ℕ → Map CallObject → Map CallObject
close_found none objects = objects
close_found (some object) objects = close_call object objects

-- `remove`
unfoldable pub remove : ℕ → Transport → Transport
remove id t = record t {
  objects = close_found (lookup id t.calls) t.objects;
  calls = delete id t.calls;
}

abbrev pub push : Frame → Option CallObject → ℕ → Map CallObject → Map CallObject
push f none object objects = objects
push f (some c) object objects = insert object (record c { queue = c.queue ++ f ∷ [] }) objects

abbrev pub push_found : Frame → Option ℕ → Map CallObject → Map CallObject
push_found f none objects = objects
push_found f (some object) objects = push f (lookup object objects) object objects

-- The critical section of `readLoop`.
unfoldable pub deliver : ℕ → Frame → Transport → Transport
deliver id f t = record t { objects = push_found f (lookup id t.calls) t.objects }

abbrev rest_of : List Frame → List Frame
rest_of [] = []
rest_of (f ∷ fs) = fs

abbrev pub pop_object : Option CallObject → ℕ → Map CallObject → Map CallObject
pop_object none object objects = objects
pop_object (some c) object objects = insert object (record c { queue = rest_of c.queue }) objects

-- `pop`, by the receiver of the call, which has its object.
unfoldable pub pop : ℕ → Transport → Transport
pop object t = record t { objects = pop_object (lookup object t.objects) object t.objects }

-- The loop of `fail` over the calls, in any order: closing one does not look at the others.
unfoldable pub close_all : Map ℕ → Map CallObject → Map CallObject
close_all [] objects = objects
close_all ((id, object) ∷ rest) objects = close_all rest (close_call object objects)

abbrev pub cancel_all : Map Bool → Map Bool
cancel_all [] = []
cancel_all ((id, canceled) ∷ rest) = (id, true) ∷ cancel_all rest

-- `fail`
unfoldable pub fail : Error → Transport → Transport
unfolding close_all
fail e t = elim t.failure [
  | none ↦ record t {
    objects = close_all t.calls t.objects;
    incoming = cancel_all t.incoming;
    failure = some e;
  }
  | some first ↦ t
]

-- What a frame of the peer's own calls is.
pub data PeerKind : Type 0 where
  request cancel other : PeerKind

abbrev pub on_peer_frame : PeerKind → ℕ → Transport → Transport
on_peer_frame request id t =
    if is_some (lookup id t.incoming) then t else record t { incoming = insert id false t.incoming }
on_peer_frame cancel id t = record t { incoming = delete id t.incoming }
on_peer_frame other id t = t

-- `handleIncomingFrame`. A canceled call is out of the table at once.
unfoldable pub handle_incoming_frame : PeerKind → ℕ → Transport → Transport
handle_incoming_frame k id t = elim t.failure [ none ↦ on_peer_frame k id t | some e ↦ t ]

-- The deferred function of `serveIncoming`.
unfoldable pub end_incoming : ℕ → Transport → Transport
end_incoming id t = record t { incoming = delete id t.incoming }

-- The critical sections.
pub data Section : Type 0 where
  registers : Section
  removes : (id : ℕ) → Section
  delivers : (id : ℕ) → Frame → Section
  pops : (object : ℕ) → Section
  fails : Error → Section
  peer_sends : PeerKind → (id : ℕ) → Section
  peer_served : (id : ℕ) → Section

unfoldable pub apply : Section → Transport → Transport
unfolding register remove deliver pop fail handle_incoming_frame end_incoming
apply registers t = (register t).0
apply (removes id) t = remove id t
apply (delivers id f) t = deliver id f t
apply (pops object) t = pop object t
apply (fails e) t = fail e t
apply (peer_sends k id) t = handle_incoming_frame k id t
apply (peer_served id) t = end_incoming id t

unfoldable pub run_sections : List Section → Transport → Transport
unfolding apply
run_sections [] t = t
run_sections (s ∷ ss) t = run_sections ss (apply s t)

abbrev pub new_transport : Transport
new_transport = record {
  objects = [];
  created = 0;
  calls = [];
  incoming = [];
  next = 0;
  failure = none;
}
