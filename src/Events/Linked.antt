-- ===== src/Events/Linked.antt =====
-- event_handler.c: the queue as it lies in memory, from head over the `next` pointers to tail, and that it does what the
-- list of Events does.
mod Tests
use routing_mesh.Prelude.{
  ℕ, zero, suc, ◌+◌, ◌-◌, ◌≡◌, ◌≢◌, refl, sym, ap, ◌∙◌, subst, Bool, true, false, ◌||◌, Option,
  none, some, List, [], ◌∷◌, ◌++◌, arith, ◌==◌, if◌then◌else◌, upd, has, ℕ_discrete,
}
use routing_mesh.Events.{Event, EventQueue, push, Popped, stopped, event, waiting, pop, pop_from}

-- `event_t`: an event and its link, with `none` for NULL
pub record Cell : Type 0 where
  pub content : Event
  pub next : Option ℕ

-- `event_queue_t` with the memory of the events
pub record LinkedQueue : Type 0 where
  pub heap : ℕ → Cell
  pub head : Option ℕ
  pub tail : Option ℕ
  pub count : ℕ
  pub running : Bool

-- the queue has the tail t
pub push_behind : LinkedQueue → ℕ → Option ℕ → LinkedQueue
push_behind q a none = record q { head = some a; tail = some a; count = q.count + 1 }
push_behind q a (some t) = record q {
  heap = upd q.heap t (record (q.heap t) { next = some a });
  tail = some a;
  count = q.count + 1;
}

-- `event_queue_push` of the event e at the address a
pub linked_push : LinkedQueue → ℕ → Event → LinkedQueue
linked_push q a e =
    push_behind (record q { heap = upd q.heap a (record { content = e; next = none }) }) a q.tail

pub tail_behind : Option ℕ → Option ℕ → Option ℕ
tail_behind none tail = none
tail_behind (some h) tail = tail

pub data LinkedPopped : Type 0 where
  no_more : LinkedPopped
  blocked : LinkedPopped
  popped : Event → LinkedQueue → LinkedPopped

pub linked_pop_from : LinkedQueue → Bool → Option ℕ → LinkedPopped
linked_pop_from q false h = no_more
linked_pop_from q true none = blocked
linked_pop_from q true (some h) = popped (q.heap h).content (record q {
  head = (q.heap h).next;
  tail = tail_behind (q.heap h).next q.tail;
  count = q.count - 1;
})

-- `event_queue_pop`
pub linked_pop : LinkedQueue → LinkedPopped
linked_pop q = linked_pop_from q q.running q.head

-- from a pointer the links lead through the distinct addresses to NULL, and the events there are these
pub data Chain (h : ℕ → Cell) : Option ℕ → List ℕ → List Event → Type 0 where
  nil : Chain h none [] []
  cons :
      {a : ℕ} {q : Option ℕ} {ps : List ℕ} {e : Event} {es : List Event}
      → has a ps ≡ false
      → (h a).content ≡ e
      → (h a).next ≡ q
      → Chain h q ps es
      → Chain h (some a) (a ∷ ps) (e ∷ es)

pub last : List ℕ → Option ℕ
last [] = none
last (a ∷ []) = some a
last (a ∷ b ∷ ps) = last (b ∷ ps)

-- the linked queue stands for the list
pub record Represents (q : LinkedQueue) (l : EventQueue) : Type 0 where
  pub addresses : List ℕ
  pub chain : Chain q.heap q.head addresses l.events
  pub tail : q.tail ≡ last addresses
  pub count : q.count ≡ l.count
  pub running : q.running ≡ l.running

pub data SameAnswer : LinkedPopped → Popped → Type 0 where
  both_stop : SameAnswer no_more stopped
  both_wait : SameAnswer blocked waiting
  both_give :
      {q : LinkedQueue} {l : EventQueue}
      → (e : Event) → Represents q l
      → SameAnswer (popped e q) (event e l)

-- a change elsewhere
frame :
    (h g : ℕ → Cell) {p : Option ℕ} {ps : List ℕ} {es : List Event}
    → ((x : ℕ) → has x ps ≡ true → g x ≡ h x)
    → Chain h p ps es
    → Chain g p ps es
frame h g same nil = nil
frame h g same (cons {a} out c n rest) =
    let e : g a ≡ h a = same a (ground arith) in
    cons out (ap (λ (x : Cell). x.content) e ∙ c) (ap (λ (x : Cell). x.next) e ∙ n)
      (frame h g (λ x i. same x (ground (arith, i))) rest)

some_inj : (a t : ℕ) → some a ≡ some t → a ≡ t
some_inj a t e = cc

last-has : (a t : ℕ) (ps : List ℕ) → last (a ∷ ps) ≡ some t → has t (a ∷ ps) ≡ true
unfolding last
last-has a t [] e = let same : a ≡ t = some_inj a t e in ground (arith, same)
last-has a t (b ∷ ps) e = ground (arith, last-has b t ps e)

has-append : (x : ℕ) (ps : List ℕ) (a : ℕ) → has x (ps ++ a ∷ []) ≡ (has x ps || x == a)
has-append x [] a = ground arith
has-append x (p ∷ ps) a = ground (arith, has-append x ps a)

-- the links from p on, where the last one, at t, has been set to the new address a
extend :
    (h g : ℕ → Cell) (a t : ℕ) (e : Event) {p : Option ℕ} {ps : List ℕ} {es : List Event}
    → ((x : ℕ) → has x ps ≡ true → x ≢ t → g x ≡ h x)
    → ((g t).content ≡ (h t).content)
    → ((g t).next ≡ some a)
    → ((g a).content ≡ e)
    → ((g a).next ≡ none)
    → has a ps ≡ false
    → last ps ≡ some t
    → Chain h p ps es
    → Chain g p (ps ++ a ∷ []) (es ++ e ∷ [])
unfolding last
extend h g a t e same c n ca na new end nil = absurd (cc end)
extend h g a t e same c n ca na new end (cons {a = b} out cb nb nil) =
    let here : b ≡ t = some_inj b t end in
    cons (ground (arith, new))
      (ap (λ x. (g x).content) here ∙ c ∙ ap (λ x. (h x).content) (sym here) ∙ cb)
      (ap (λ x. (g x).next) here ∙ n) (cons refl ca na nil)
extend h g a t e same c n ca na new end
      (cons {a = b} out cb nb (cons {a = d} {ps = qs} out' cd nd rest)) =
    let differ : b ≢ t = (λ z. ground (arith, z, out, last-has d t qs end)) in
    let eq : g b ≡ h b = same b (ground arith) differ in
    cons (has-append b (d ∷ qs) a ∙ ground (arith, out, new)) (ap (λ (x : Cell). x.content) eq ∙ cb)
      (ap (λ (x : Cell). x.next) eq ∙ nb)
      (extend h g a t e (λ x i ne. same x (ground (arith, i)) ne) c n ca na (ground (arith, new))
        end (cons out' cd nd rest))

last-some : (a : ℕ) (ps : List ℕ) → (t : ℕ) × (last (a ∷ ps) ≡ some t)
unfolding last
last-some a [] = (a, refl)
last-some a (b ∷ ps) = last-some b ps

last-append : (ps : List ℕ) (a : ℕ) → last (ps ++ a ∷ []) ≡ some a
unfolding last
last-append [] a = refl
last-append (p ∷ []) a = refl
last-append (p ∷ b ∷ ps) a = last-append (b ∷ ps) a

module _ (h : ℕ → Cell) (k k' : ℕ) (b b' : Bool) (counts : k ≡ k') (runs : b ≡ b') where
  push_at :
      (a : ℕ) (e : Event) {p : Option ℕ} {ps : List ℕ} {es : List Event} (o : Option ℕ)
      → o ≡ last ps
      → has a ps ≡ false
      → Chain h p ps es
      → Represents
          (push_behind
            (record {
              heap = upd h a (record { content = e; next = none });
              head = p;
              tail = o;
              count = k;
              running = b;
            })
            a
            o)
          (record { events = es ++ e ∷ []; count = k' + 1; running = b' })
  unfolding push_behind last
  push_at a e none end new nil = record {
    addresses = a ∷ [];
    chain = cons refl (ground arith) (ground arith) nil;
    tail = refl;
    count = omega (arith, counts);
    running = runs;
  }
  push_at a e (some t) end new nil = absurd (cc end)
  push_at a e none end new (cons {a = x} {ps = ps} out c n rest) =
      absurd (cc (end, (last-some x ps).1))
  push_at a e (some t) end new (cons {a = x} {ps = ps} out c n rest) =
      let other : t ≢ a = λ z. ground (arith, z, new, last-has x t ps (sym end)) in
      let cell : Cell = record { content = e; next = none } in
      let g = upd (upd h a cell) t (record (upd h a cell t) { next = some a }) in
      let same : (y : ℕ) → has y (x ∷ ps) ≡ true → y ≢ t → g y ≡ h y = (λ y i ne.
        elim (ℕ_discrete y a) [
          | yes z ↦ absurd (ground (arith, z, i, new))
          | no differ ↦ ground (arith, differ, ne)
        ]) in
      record {
        addresses = x ∷ ps ++ a ∷ [];
        chain =
            extend h g a t e same (ground (arith, other)) (ground arith) (ground (arith, other))
              (ground (arith, other)) new (sym end) (cons out c n rest);
        tail = sym (last-append (x ∷ ps) a);
        count = omega (arith, counts);
        running = runs;
      }

  tail-rest :
      (a : ℕ) {p : Option ℕ} {ps : List ℕ} {es : List Event} (o : Option ℕ)
      → o ≡ last (a ∷ ps)
      → Chain h p ps es
      → tail_behind p o ≡ last ps
  unfolding tail_behind last
  tail-rest a o end nil = refl
  tail-rest a o end (cons out c n rest) = end

-- A push onto the linked queue at an address that is not in use is a push onto the list.
push-Represents :
    (q : LinkedQueue) (l : EventQueue) (a : ℕ) (e : Event) (r : Represents q l)
    → has a r.addresses ≡ false
    → Represents (linked_push q a e) (push l e)
unfolding linked_push push
push-Represents q l a e r new =
    push_at q.heap q.count l.count q.running l.running r.count r.running a e q.tail r.tail new
      r.chain

module _ (h : ℕ → Cell) (k k' : ℕ) (counts : k ≡ k') where
  pop_at :
      (b b' : Bool) {p : Option ℕ} {ps : List ℕ} {es : List Event} (o : Option ℕ)
      → b ≡ b'
      → o ≡ last ps
      → Chain h p ps es
      → SameAnswer
          (linked_pop_from (record { heap = h; head = p; tail = o; count = k; running = b }) b p)
          (pop_from (record { events = es; count = k'; running = b' }) b' es)
  unfolding linked_pop_from pop_from
  pop_at false true o runs end chain = absurd (cc runs)
  pop_at true false o runs end chain = absurd (cc runs)
  pop_at false false o runs end chain = both_stop
  pop_at true true o runs end nil = both_wait
  pop_at true true o runs end (cons {a} {ps = ps} {e} out c n rest) =
      rw (c, n)
        (both_give e (record {
          addresses = ps;
          chain = rest;
          tail = tail-rest h k k' true true counts refl a o end rest;
          count = omega (arith, counts);
          running = refl;
        }))

-- A pop from the linked queue answers as a pop from the list.
pop-SameAnswer :
    (q : LinkedQueue) (l : EventQueue) → Represents q l → SameAnswer (linked_pop q) (pop l)
unfolding linked_pop linked_pop_from pop pop_from
pop-SameAnswer q l r =
    pop_at q.heap q.count l.count r.count q.running l.running q.tail r.running r.tail r.chain

-- The queue in memory, from head over the links to tail, refines the list of its events: a push of an event at an address
-- that no event of the queue has represents the list with the event at its end, and a pop stops, waits or gives the first
-- event exactly as the list does, and then represents the list of the others.
pub linked_refines :
    (q : LinkedQueue) (l : EventQueue) (a : ℕ) (e : Event) (r : Represents q l)
    → has a r.addresses ≡ false
    → Represents (linked_push q a e) (push l e) × SameAnswer (linked_pop q) (pop l)
linked_refines q l a e r new = (push-Represents q l a e r new, pop-SameAnswer q l r)
