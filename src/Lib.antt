-- ===== src/Lib.antt =====
-- [incr Tcl], the object system of the itcl package (directory generic/ of the repository), modelled
-- by executable definitions and their correctness theorems.
--
-- The parts and how they interact. A class (`ItclClass`) has a list of base classes. The hierarchy
-- iterator walks a class and its ancestors with the generic stack. The `inherit` command sets the
-- bases, records all ancestors in the heritage table, and rebuilds the method table with the iterator.
-- The access rules ask the heritage table; the command resolver asks the method table. The
-- context of a call frame is on a stack of its own. The construction and destruction of
-- objects follow the bases, in the order that the iterator has. The part lists of ensembles, the linked
-- list, the registry of C procedures and the counted memory stand alone.
--
-- Which file models which part:
-- - Stack.antt: Itcl_Stack of generic/itcl.h and its operations in generic/itclUtil.c. A stack is its
--   array of cells, its length and its capacity; a write behind the array is a fault (`none`).
-- - Classes.antt: the fields of ItclClass, ItclMemberFunc and ItclObjectInfo (generic/itclInt.h) that
--   the other parts use. Pointers to classes and namespaces are numbers, hash tables association
--   lists, and names lists of bytes.
-- - Hierarchy.antt: Itcl_InitHierIter, Itcl_AdvanceHierIter, Itcl_DeleteHierIter (generic/itclClass.c)
--   and the loop `while (cls != NULL) { ...; cls = Itcl_AdvanceHierIter(&hier); }` with a body that may
--   break. `Preorder` of Hierarchy/Order.antt describes the order without the iterator.
-- - Tables.antt: Itcl_BuildVirtualTables (generic/itclClass.c).
-- - Inherit.antt: Itcl_ClassInheritCmd (generic/itclParse.c).
-- - Access.antt: Itcl_CanAccess2, Itcl_CanAccess, Itcl_CanAccessFunc (generic/itclUtil.c); `none` is a
--   failed assertion.
-- - Resolve.antt: Itcl_ClassCmdResolver (generic/itclResolve.c).
-- - Ensemble.antt: the part lists of generic/itclEnsemble.c. Ensemble/Parts.antt has FindEnsemblePart,
--   FindEnsemblePartIndex, ComputeMinChars, CreateEnsemblePart and the removal in DeleteEnsemblePart,
--   on an array of cells; Ensemble/Search.antt the binary search of both look-ups; Ensemble/Names.antt
--   the comparisons, for signed and unsigned `char`. The invariant is in Ensemble/Invariant.antt.
-- - Linkage.antt: Itcl_RegisterC, Itcl_RegisterObjC, Itcl_FindC, ItclFreeC (generic/itclLinkage.c).
-- - Memory.antt: Itcl_Alloc, Itcl_EventuallyFree, Itcl_PreserveData, Itcl_ReleaseData, Itcl_Free
--   (generic/itclUtil.c), with assertions as errors.
-- - Context.antt: Itcl_SetContext, Itcl_UnsetContext, Itcl_GetContext (generic/itclMethod.c), on a stack
--   of Stack.antt for each call frame. Context/Invoke.antt: ItclCheckCallMethod and ItclAfterCallMethod,
--   with the cache of contexts of an object; ckalloc returns the next free address.
-- - Paths.antt: Itcl_ParseNamespPath (generic/itclUtil.c).
-- - Arguments.antt: EquivArgLists (generic/itclMethod.c).
-- - Protection.antt: Itcl_Protection (generic/itclUtil.c) and Itcl_ClassProtectionCmd
--   (generic/itclParse.c).
-- - Lifecycle.antt: the constructors and destructors of an object. Lifecycle/Construct.antt has
--   Itcl_ConstructBase and ItclConstructGuts (generic/itclMethod.c), Lifecycle/Destruct.antt
--   ItclDestructBase, and Lifecycle/Objects.antt Itcl_DestructObject, Itcl_DeleteObject,
--   ItclDestroyObject, ObjectRenamedTrace and the part of ItclCreateObject that constructs
--   (generic/itclObject.c). A script is the tree of the constructor or destructor calls that it makes.
--   A failed assertion of Itcl_ReleaseData, and the use of an object without claims, is a crash.
--   Lifecycle/Build.antt and Lifecycle/Raze.antt say what happens without the recursion.
-- - LinkedList.antt: Itcl_List and its element pool (generic/itclUtil.c), on a memory of elements with
--   pointers. LinkedList/Contents.antt says what a list and the pool hold.
-- - Scoped.antt: Itcl_DecodeScopedCommand (generic/itclUtil.c) and Itcl_CodeCmd (generic/itclCmd.c). What
--   they need of Tcl is the record `Tcl`.
-- - Chain.antt: NRBiChainCmd (generic/itclBuiltin.c), on the iterator of Hierarchy.antt; the class
--   context and the words of the call frame are arguments.
-- - Isa.antt: Itcl_BiIsaCmd (generic/itclBuiltin.c) and Itcl_ObjectIsa (generic/itclObject.c), on the
--   class records; Itcl_FindClass is a parameter.
-- - Prelude.antt: shared names, lists and C strings. Tests.antt: runs at concrete inputs.
--
-- Bounds and fuel. A loop over a hierarchy takes fuel; more rounds than classes in the order are
-- enough, and the theorems show that such a loop ends. Lengths and capacities are numbers without
-- overflow. A class stands in `Preorder` only if its hierarchy ends. The binary search has one round
-- more of fuel than there are parts, which is enough since every round drops a part. A construction
-- takes two steps of fuel for each level of the hierarchy, and a destruction one, and one at its end; the
-- theorems ask for twice, or one more than, the number of classes in the order. The loops over a list
-- and over the pool take one round more than there are elements.
--
-- Not modelled: the Tcl interpreter (finding and loading a class, call frames, evaluation of scripts
-- are parameters), the wording of messages, instance variables and options, scripts that delete their
-- own object while it is constructed or destructed, the commands and usage strings of ensembles,
-- widgets, introspection, stubs and package setup.
pub mod Prelude
pub mod Stack
pub mod Classes
pub mod Hierarchy
pub mod Tables
pub mod Inherit
pub mod Access
pub mod Resolve
pub mod Linkage
pub mod Memory
pub mod Ensemble
pub mod Context
pub mod Paths
pub mod Arguments
pub mod Protection
pub mod Lifecycle
pub mod LinkedList
pub mod Scoped
pub mod Chain
pub mod Isa
pub mod Tests
